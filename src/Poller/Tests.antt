-- ===== src/Poller/Tests.antt =====
-- A StatefulSet that becomes ready in the second round, one that is missing, and failing tries.
use radondb_clickhouse_opera.Base.{
  ℕ, ◌≡◌, refl, ◌⊎◌, inr, Bool, true, false, Option, some, List, [], ◌∷◌, arith,
}
use radondb_clickhouse_opera.Poller.{
  StatefulSetPollOptions, OperatorConfig, StatefulSet, is_stateful_set_ready, Reply, found,
  not_found, Round, poll_loop, wait_host_not_ready, poll_round,
}
use radondb_clickhouse_opera.Poller.Laws.{IsReturned, EndsWith, poll_loop-IsReturned, poll_loop-ok}
use radondb_clickhouse_opera.Poller.Waits.{wait_host_not_ready-not_found}

abbrev config : OperatorConfig
config = record { stateful_set_update_timeout = 300; stateful_set_update_poll_period = 15 }

abbrev sts : ℕ → StatefulSet
sts ready = record {
  generation = 1;
  observed_generation = 1;
  spec_replicas = some 1;
  ready_replicas = ready;
  current_replicas = 1;
  updated_replicas = 1;
  current_revision = "a";
  update_revision = "a";
}

abbrev at : Reply → ℕ → Round
at reply t = record { done = false; reply = reply; since_at_create = t; since_at_timeout = t }

abbrev options : StatefulSetPollOptions
options = record {
  start_bothering_after_timeout = 60;
  create_timeout = 30;
  timeout = 20;
  main_interval = 10;
  background_interval = 1;
}

abbrev becomes_ready : List Round
becomes_ready = at (found (sts 0)) 0 ∷ at (found (sts 1)) 12 ∷ []

abbrev never_ready : List Round
never_ready = at (found (sts 0)) 0 ∷ at (found (sts 0)) 11 ∷ at (found (sts 0)) 22 ∷ []

poll_loop-IsReturned_example : IsReturned (poll_loop options is_stateful_set_ready never_ready)
poll_loop-IsReturned_example =
    poll_loop-IsReturned options is_stateful_set_ready 2 never_ready refl
      (inr (omega arith), (inr (omega arith), (inr (omega arith), tt))) (omega arith)

poll_loop-ok_example :
    EndsWith options is_stateful_set_ready
      (λ r.
        (r.done ≡ true)
        ⊎ ((s : StatefulSet) × (r.reply ≡ found s) × (is_stateful_set_ready s ≡ true)))
      becomes_ready
unfolding poll_loop poll_round is_stateful_set_ready
poll_loop-ok_example = poll_loop-ok options is_stateful_set_ready becomes_ready refl

wait_host_not_ready-not_found_example :
    wait_host_not_ready config false (at not_found 5 ∷ []) ≡ wait_host_not_ready config false []
wait_host_not_ready-not_found_example =
    wait_host_not_ready-not_found config (at not_found 5) [] refl refl (omega arith) (omega arith)

abbrev tries : List (Bool × Option ℕ)
tries = (false, some 1) ∷ (false, some 2) ∷ []
