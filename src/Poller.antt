-- ===== src/Poller.antt =====
-- pkg/controller/chi/poller.go and pkg/util/retry/retry.go: loops that wait for an object of the
-- cluster. A round of a loop is what it reads: the context, the API's answer and the clock. A loop
-- that has used up the rounds is still waiting.
pub mod Laws
pub mod Waits
mod Tests
use radondb_clickhouse_opera.Base.{
  ℕ, zero, suc, ◌*◌, String, ◌≡◌, Bool, true, false, not, ◌&&◌, Option, none, some, List, [], ◌∷◌,
  ◌==◌,
}
use radondb_clickhouse_opera.Base.Tests.{ltb, leb, eqb, if◌then◌else◌}

-- a `time.Duration` of non-negative nanoseconds
abbrev pub second : ℕ
second = 1000000000

pub record StatefulSetPollOptions : Type 0 where
  pub start_bothering_after_timeout : ℕ
  pub create_timeout : ℕ
  pub timeout : ℕ
  pub main_interval : ℕ
  pub background_interval : ℕ

-- the fields of the operator's configuration that polling reads, in seconds
pub record OperatorConfig : Type 0 where
  pub stateful_set_update_timeout : ℕ
  pub stateful_set_update_poll_period : ℕ

abbrev pub new_stateful_set_poll_options : StatefulSetPollOptions
new_stateful_set_poll_options = record {
  start_bothering_after_timeout = 0;
  create_timeout = 0;
  timeout = 0;
  main_interval = 0;
  background_interval = 0;
}

-- a nil receiver
abbrev pub ensure : Option StatefulSetPollOptions → StatefulSetPollOptions
ensure none = new_stateful_set_poll_options
ensure (some o) = o

unfoldable pub from_config : StatefulSetPollOptions → OperatorConfig → StatefulSetPollOptions
from_config o config = record {
  start_bothering_after_timeout = 60 * second;
  create_timeout = 30 * second;
  timeout = config.stateful_set_update_timeout * second;
  main_interval = config.stateful_set_update_poll_period * second;
  background_interval = second;
}

unfoldable pub set_create_timeout : StatefulSetPollOptions → ℕ → StatefulSetPollOptions
set_create_timeout o timeout = record {
  start_bothering_after_timeout = o.start_bothering_after_timeout;
  create_timeout = timeout;
  timeout = o.timeout;
  main_interval = o.main_interval;
  background_interval = o.background_interval;
}

-- the fields of a StatefulSet that the wait conditions read
pub record StatefulSet : Type 0 where
  pub generation : ℕ
  pub observed_generation : ℕ
  pub spec_replicas : Option ℕ
  pub ready_replicas : ℕ
  pub current_replicas : ℕ
  pub updated_replicas : ℕ
  pub current_revision : String
  pub update_revision : String

-- `none` is the panic on nil `Spec.Replicas`, which only the tests before it avoid
unfoldable pub is_stateful_set_generation : StatefulSet → ℕ → Option Bool
is_stateful_set_generation sts generation =
    if eqb sts.generation generation && eqb sts.observed_generation sts.generation
    then elim sts.spec_replicas [
      | none ↦ none
      | some replicas ↦ some (
          eqb sts.current_replicas replicas
          && (eqb sts.updated_replicas replicas && sts.current_revision == sts.update_revision))
    ]
    else some false

ready_at : Option ℕ → ℕ → Bool
ready_at none ready = false
ready_at (some replicas) ready = eqb ready replicas

unfoldable pub is_stateful_set_ready : StatefulSet → Bool
unfolding ready_at
is_stateful_set_ready sts = ready_at sts.spec_replicas sts.ready_replicas

unfoldable pub is_stateful_set_not_ready : StatefulSet → Bool
is_stateful_set_not_ready sts = not (is_stateful_set_ready sts)

pub data PollError : Type 0 where
  is_not_found other_error wait_timeout : PollError

-- what `Get` answers
pub data Reply : Type 0 where
  found : StatefulSet → Reply
  not_found get_failed : Reply

-- `time.Since(start)` is read twice, for the create timeout and for the whole timeout
pub record Round : Type 0 where
  pub done : Bool
  pub reply : Reply
  pub since_at_create : ℕ
  pub since_at_timeout : ℕ

-- `returned none` is a nil error
pub data Verdict : Type 0 where
  returned : Option PollError → Verdict
  waiting : Verdict

-- a return ends the loop
proceed : Verdict → Verdict → Verdict
proceed (returned e) rest = returned e
proceed waiting rest = rest

module _ (opts : StatefulSetPollOptions) (main_fn : StatefulSet → Bool) where
  after_get : Reply → ℕ → Verdict
  after_get (found sts) since = if main_fn sts then returned none else waiting
  after_get not_found since =
      if leb opts.create_timeout since then returned (some is_not_found) else waiting
  after_get get_failed since = returned (some other_error)

  check_timeout : Verdict → ℕ → Verdict
  check_timeout (returned e) since = returned e
  check_timeout waiting since =
      if leb opts.timeout since then returned (some wait_timeout) else waiting

  -- one pass through the body of the loop; `waiting` goes on to `pollback`
  unfoldable pub poll_round : Round → Verdict
  unfolding after_get check_timeout
  poll_round r =
      if r.done
      then returned none
      else check_timeout (after_get r.reply r.since_at_create) r.since_at_timeout

  unfoldable pub poll_loop : List Round → Verdict
  unfolding poll_round proceed
  poll_loop [] = waiting
  poll_loop (r ∷ rounds) = proceed (poll_round r) (poll_loop rounds)

-- the flag says that the context is done at the call
unfoldable pub poll_stateful_set :
    OperatorConfig
    → Bool
    → Option StatefulSetPollOptions
    → (StatefulSet → Bool)
    → List Round
    → Verdict
unfolding poll_loop
poll_stateful_set config ctx_done opts main_fn rounds =
    if ctx_done then returned none else poll_loop (from_config (ensure opts) config) main_fn rounds

forgive_not_found : Verdict → Verdict
forgive_not_found (returned (some is_not_found)) = returned none
forgive_not_found v = v

unfoldable pub wait_host_not_ready : OperatorConfig → Bool → List Round → Verdict
unfolding forgive_not_found
wait_host_not_ready config ctx_done rounds = forgive_not_found (
    poll_stateful_set config ctx_done
      (some (set_create_timeout (from_config new_stateful_set_poll_options config) 0))
      is_stateful_set_not_ready rounds)

-- `Retry`: the context's state before each try, and the error of the try, `none` for success
unfoldable pub retry {ℓ} : {E : Type ℓ} → List (Bool × Option E) → Option E → Option E
retry [] err = err
retry ((ctx_done, result) ∷ tries) err =
    let rest = retry tries result in
    if ctx_done then none else elim result [ none ↦ none | some e ↦ rest ]
