-- ===== src/Worker/Attributes/Waits.antt =====
-- The decisions about a host beside each other, and under a normalised policy.
use radondb_clickhouse_opera.Base.{
  ◌≡◌, refl, ap, ◌∙◌, String, Bool, true, false, Option, none, some, ◌==◌, ◌||◌,
}
use radondb_clickhouse_opera.Base.Tests.{eqb, if◌then◌else◌}
use radondb_clickhouse_opera.Util.Text.{same, to_lower}
use radondb_clickhouse_opera.Cleanup.Reconciling.{
  ChiReconciling, reconciling_policy_wait, reconciling_policy_no_wait,
  reconciling_policy_unspecified, is_reconciling_policy_wait, is_reconciling_policy_no_wait,
  get_policy, lower_is, normal_policy, normalize_given, default_reconciling, normalize_reconciling,
  reconciling_set_defaults,
}
use radondb_clickhouse_opera.Worker.Attributes.{stateful_set_status_new, stateful_set_status_same}
use radondb_clickhouse_opera.Worker.Attributes.Decisions.{
  Host, WaitConfig, should_wait_exclude_host, should_wait_include_host,
}

-- the status of a host's StatefulSet that is written before a decision
abbrev pub at_status : Host → String → Host
at_status host status = record host { status = status }

abbrev pub is_new_or_same : String → Bool
is_new_or_same status = status == stateful_set_status_new || status == stateful_set_status_same

-- the first policy that is asked for decides
abbrev choose : Bool → Bool → Bool → Bool
choose wait no_wait config = if wait then true else if no_wait then false else config

abbrev chosen : Bool → Bool → String
chosen wait no_wait =
    if wait
    then reconciling_policy_wait
    else if no_wait
    then reconciling_policy_no_wait
    else reconciling_policy_unspecified

choose-chosen :
    (a b c : Bool)
    → choose
        (lower_is (chosen a b) reconciling_policy_wait)
        (lower_is (chosen a b) reconciling_policy_no_wait)
        c
      ≡ choose a b c
unfolding same to_lower
choose-chosen true b c = refl
choose-chosen false true c = refl
choose-chosen false false c = refl

-- what a policy chooses
abbrev choice : String → Bool → Bool
choice policy c =
    choose (lower_is policy reconciling_policy_wait) (lower_is policy reconciling_policy_no_wait) c

choice-normal_policy :
    (t : ChiReconciling) (c : Bool) → choice (normal_policy t) c ≡ choice t.policy c
unfolding normal_policy
choice-normal_policy t c =
    choose-chosen (lower_is t.policy reconciling_policy_wait)
      (lower_is t.policy reconciling_policy_no_wait) c

choice-none : (c : Bool) → choice "" c ≡ c
unfolding same to_lower
choice-none c = refl

choice-default : (c : Bool) → choice default_reconciling.policy c ≡ choice "" c
unfolding same to_lower default_reconciling reconciling_set_defaults
choice-default c = refl

choice-normalize :
    (r : Option ChiReconciling) (c : Bool)
    → choice (get_policy (some (normalize_reconciling r))) c ≡ choice (get_policy r) c
unfolding get_policy normalize_reconciling normalize_given
choice-normalize none c = choice-normal_policy default_reconciling c ∙ choice-default c
choice-normalize (some t) c = choice-normal_policy t c

abbrev pub normalized : Host → Host
normalized host = record host { reconciling = some (normalize_reconciling host.reconciling) }

-- a decision that falls through to the policy
include_choice :
    (a b d : Bool) (x y : Bool)
    → x ≡ y
    → (if a then false else if b then false else if d then false else x)
      ≡ (if a then false else if b then false else if d then false else y)
include_choice a b d x y e =
    ap (λ z. if a then false else if b then false else if d then false else z) e

-- Normalising the reconcile policy of an installation changes neither decision to wait for its
-- hosts.
pub waits-normalize :
    (config : WaitConfig) (host : Host)
    → (should_wait_exclude_host config (normalized host) ≡ should_wait_exclude_host config host)
      × (should_wait_include_host config (normalized host) ≡ should_wait_include_host config host)
unfolding should_wait_exclude_host should_wait_include_host is_reconciling_policy_wait
    is_reconciling_policy_no_wait
waits-normalize config host = (
  choice-normalize host.reconciling config.reconcile_wait_exclude,
  include_choice (host.status == stateful_set_status_new) (host.status == stateful_set_status_same)
      (eqb host.shard_hosts_count 1) _ _
      (choice-normalize host.reconciling config.reconcile_wait_include),
)
