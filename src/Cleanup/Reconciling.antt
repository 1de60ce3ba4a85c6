-- ===== src/Cleanup/Reconciling.antt =====
-- ChiReconciling of pkg/apis/clickhouse.radondb.com/v1/types.go with the policy of waiting, and
-- normalizeReconciling of pkg/model/normalizer.go.
use radondb_clickhouse_opera.Base.{String, Bool, Option, none, some, ◌==◌, ◌||◌}
use radondb_clickhouse_opera.Base.Tests.{if◌then◌else◌}
use radondb_clickhouse_opera.Base.Int.{ℤ, pos, is_zero}
use radondb_clickhouse_opera.Util.Text.{codes, to_lower, same}
use radondb_clickhouse_opera.TemplateNames.{
  MergeType, merge_type_fill_empty_values, merge_type_override_by_non_empty_values,
}
use radondb_clickhouse_opera.Cleanup.{
  ChiObjectsCleanup, ChiCleanup, objects_cleanup_retain, objects_cleanup_delete, fill_text,
  override_text, merge_cleanup, new_chi_cleanup, default_unknown_objects,
  default_reconcile_failed_objects, cleanup_set_defaults, ensure_cleanup,
}

pub record ChiReconciling : Type 0 where
  pub policy : String
  pub config_map_propagation_timeout : ℤ
  pub cleanup : Option ChiCleanup

abbrev pub reconciling_policy_unspecified : String
reconciling_policy_unspecified = "unspecified"

abbrev pub reconciling_policy_wait : String
reconciling_policy_wait = "wait"

abbrev pub reconciling_policy_no_wait : String
reconciling_policy_no_wait = "nowait"

abbrev pub new_chi_reconciling : ChiReconciling
new_chi_reconciling = record { policy = ""; config_map_propagation_timeout = pos 0; cleanup = none }

-- `if to == 0 { to = from }`
unfoldable pub fill_number : ℤ → ℤ → ℤ
fill_number to from = if is_zero to then from else to

-- `if from != 0 { to = from }`
unfoldable pub override_number : ℤ → ℤ → ℤ
override_number to from = if is_zero from then to else from

unfoldable pub merge_reconciling_found :
    MergeType → ChiReconciling → ChiReconciling → ChiReconciling
merge_reconciling_found merge_type_fill_empty_values t from = record {
  policy = fill_text t.policy from.policy;
  config_map_propagation_timeout =
      fill_number t.config_map_propagation_timeout from.config_map_propagation_timeout;
  cleanup = merge_cleanup t.cleanup from.cleanup merge_type_fill_empty_values;
}
merge_reconciling_found merge_type_override_by_non_empty_values t from = record {
  policy = override_text t.policy from.policy;
  config_map_propagation_timeout =
      override_number t.config_map_propagation_timeout from.config_map_propagation_timeout;
  cleanup = merge_cleanup t.cleanup from.cleanup merge_type_override_by_non_empty_values;
}

abbrev pub ensure_reconciling : Option ChiReconciling → ChiReconciling
ensure_reconciling none = new_chi_reconciling
ensure_reconciling (some t) = t

unfoldable pub merge_reconciling :
    Option ChiReconciling → Option ChiReconciling → MergeType → Option ChiReconciling
unfolding merge_reconciling_found
merge_reconciling t none ty = t
merge_reconciling t (some from) ty = some (merge_reconciling_found ty (ensure_reconciling t) from)

unfoldable pub reconciling_set_defaults : Option ChiReconciling → Option ChiReconciling
reconciling_set_defaults none = none
reconciling_set_defaults (some t) = some (record {
  policy = reconciling_policy_unspecified;
  config_map_propagation_timeout = pos 60;
  cleanup = cleanup_set_defaults (some new_chi_cleanup);
})

unfoldable pub get_policy : Option ChiReconciling → String
get_policy none = ""
get_policy (some t) = t.policy

unfoldable pub set_policy : Option ChiReconciling → String → Option ChiReconciling
set_policy none p = none
set_policy (some t) p = some (record t { policy = p })

unfoldable pub get_config_map_propagation_timeout : Option ChiReconciling → ℤ
get_config_map_propagation_timeout none = pos 0
get_config_map_propagation_timeout (some t) = t.config_map_propagation_timeout

unfoldable pub set_config_map_propagation_timeout :
    Option ChiReconciling → ℤ → Option ChiReconciling
set_config_map_propagation_timeout none timeout = none
set_config_map_propagation_timeout (some t) timeout =
    some (record t { config_map_propagation_timeout = timeout })

-- `strings.ToLower(text) == word`, for a word in lower case
abbrev pub lower_is : String → String → Bool
lower_is text word = same (to_lower text) (codes word)

unfoldable pub is_reconciling_policy_wait : Option ChiReconciling → Bool
is_reconciling_policy_wait t = lower_is (get_policy t) reconciling_policy_wait

unfoldable pub is_reconciling_policy_no_wait : Option ChiReconciling → Bool
is_reconciling_policy_no_wait t = lower_is (get_policy t) reconciling_policy_no_wait

unfoldable pub get_cleanup : Option ChiReconciling → Option ChiCleanup
get_cleanup none = none
get_cleanup (some t) = t.cleanup

-- the value that is written to `*str`
unfoldable pub normalize_cleanup : String → String → String
normalize_cleanup str value =
    if str == objects_cleanup_retain || str == objects_cleanup_delete then str else value

unfoldable pub normalize_objects : ChiObjectsCleanup → String → ChiObjectsCleanup
normalize_objects c value = record {
  stateful_set = normalize_cleanup c.stateful_set value;
  pvc = normalize_cleanup c.pvc value;
  config_map = normalize_cleanup c.config_map value;
  service = normalize_cleanup c.service value;
}

-- the pointer is filled by the default if it is nil, and what it points to is normalised
unfoldable pub normalize_found :
    Option ChiObjectsCleanup → Option ChiObjectsCleanup → String → Option ChiObjectsCleanup
unfolding normalize_objects
normalize_found (some c) default value = some (normalize_objects c value)
normalize_found none (some c) value = some (normalize_objects c value)
normalize_found none none value = none

unfoldable pub normalize_reconciling_cleanup : Option ChiCleanup → ChiCleanup
unfolding normalize_found
normalize_reconciling_cleanup cleanup =
    let c = ensure_cleanup cleanup in
    record {
      unknown_objects =
          normalize_found c.unknown_objects default_unknown_objects objects_cleanup_delete;
      reconcile_failed_objects =
          normalize_found c.reconcile_failed_objects default_reconcile_failed_objects
            objects_cleanup_retain;
    }

unfoldable pub normal_policy : ChiReconciling → String
normal_policy t =
    if lower_is t.policy reconciling_policy_wait
    then reconciling_policy_wait
    else if lower_is t.policy reconciling_policy_no_wait
    then reconciling_policy_no_wait
    else reconciling_policy_unspecified

unfoldable pub normalize_given : ChiReconciling → ChiReconciling
unfolding normal_policy
normalize_given t = record t {
  policy = normal_policy t;
  cleanup = some (normalize_reconciling_cleanup t.cleanup);
}

unfoldable pub default_reconciling : ChiReconciling
default_reconciling = ensure_reconciling (reconciling_set_defaults (some new_chi_reconciling))

unfoldable pub normalize_reconciling : Option ChiReconciling → ChiReconciling
unfolding normalize_given default_reconciling
normalize_reconciling none = normalize_given default_reconciling
normalize_reconciling (some t) = normalize_given t
