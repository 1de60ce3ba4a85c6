-- ===== src/Poller/Waits.antt =====
-- The callers of the polling loop, its options, and `Retry`.
use radondb_clickhouse_opera.Base.{
  ◌*◌, ◌<◌, ◌≡◌, refl, ap, ◌⊎◌, inl, inr, Bool, true, false, Option, none, some, List, [], ◌∷◌,
  ◌++◌, arith,
}
use radondb_clickhouse_opera.Base.Tests.{is_some}
use radondb_clickhouse_opera.Base.Lists.{AllOf}
use radondb_clickhouse_opera.Poller.{
  StatefulSetPollOptions, OperatorConfig, from_config, second, StatefulSet, not_found, Round,
  after_get, check_timeout, poll_round, proceed, poll_loop, poll_stateful_set, wait_host_not_ready,
  retry,
}

none-ne-some {ℓ} : {A : Type ℓ} {a : A} → none ≡ some a → ⊥
none-ne-some h = cc

-- The options that a caller passes to the polling of a StatefulSet have no effect on it.
pub poll_stateful_set-options :
    (config : OperatorConfig) (ctx_done : Bool) (o p : Option StatefulSetPollOptions)
    (f : StatefulSet → Bool) (rounds : List Round)
    → poll_stateful_set config ctx_done o f rounds ≡ poll_stateful_set config ctx_done p f rounds
unfolding poll_stateful_set from_config
poll_stateful_set-options config ctx_done o p f rounds = refl

-- Waiting for a host that is not ready goes on after a round at which the StatefulSet is missing,
-- within thirty seconds and the update timeout.
pub wait_host_not_ready-not_found :
    (config : OperatorConfig) (r : Round) (rounds : List Round)
    → r.done ≡ false
    → r.reply ≡ not_found
    → r.since_at_create < 30 * second
    → r.since_at_timeout < config.stateful_set_update_timeout * second
    → wait_host_not_ready config false (r ∷ rounds) ≡ wait_host_not_ready config false rounds
unfolding wait_host_not_ready poll_stateful_set poll_loop poll_round from_config after_get
    check_timeout proceed
wait_host_not_ready-not_found config r rounds d n c t = rw d (rw n (ground arith))

abbrev pub Failed {ℓ} : {E : Type ℓ} → Bool × Option E → Type 0
Failed t = (t.0 ≡ false) × (is_some t.1 ≡ true)

retry-error_after {ℓ} :
    {E : Type ℓ} (tries : List (Bool × Option E)) (err : Option E) (e : E)
    → retry tries err ≡ some e
    → AllOf Failed tries
      × (((tries ≡ []) × (err ≡ some e))
          ⊎ ((before : List (Bool × Option E)) × (tries ≡ before ++ (false, some e) ∷ [])))
unfolding retry
retry-error_after [] err e h = (tt, inl (refl, h))
retry-error_after ((true, x) ∷ tries) err e h = absurd (none-ne-some h)
retry-error_after ((false, none) ∷ tries) err e h = absurd (none-ne-some h)
retry-error_after {E = E} ((false, some d) ∷ tries) err e h =
    let (all, cases) = retry-error_after tries (some d) e h in
    (
      ((refl, refl), all),
      elim cases [
        | inl (z, q) ↦ inr ([], cc)
        | inr (before, split) ↦ inr (
          (false, some d) ∷ before,
          ap (λ (ts : List (Bool × Option E)). (false, some d) ∷ ts) split,
        )
      ],
    )

-- Retrying returns an error only after every try has failed with the context not done, and then
-- the error of the last try.
pub retry-error {ℓ} :
    {E : Type ℓ} (tries : List (Bool × Option E)) (e : E)
    → retry tries none ≡ some e
    → AllOf Failed tries
      × ((before : List (Bool × Option E)) × (tries ≡ before ++ (false, some e) ∷ []))
retry-error tries e h =
    let (all, cases) = retry-error_after tries none e h in
    elim cases [ inl (z, q) ↦ absurd (none-ne-some q) | inr split ↦ (all, split) ]
