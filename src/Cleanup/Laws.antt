-- ===== src/Cleanup/Laws.antt =====
-- Which policy applies to each kind of object after the policies are normalised.
use radondb_clickhouse_opera.Base.{String, ◌≡◌, refl, Option, none, some, ◌==◌, ◌||◌}
use radondb_clickhouse_opera.Base.Tests.{if◌then◌else◌}
use radondb_clickhouse_opera.Cleanup.{
  ChiObjectsCleanup, ChiCleanup, objects_cleanup_retain, objects_cleanup_delete, get_stateful_set,
  get_pvc, get_config_map, get_service, get_unknown_objects, get_reconcile_failed_objects,
  default_unknown_objects, default_reconcile_failed_objects, cleanup_set_defaults,
}
use radondb_clickhouse_opera.Cleanup.Reconciling.{
  ChiReconciling, get_cleanup, normalize_cleanup, normalize_objects, normalize_found,
  normalize_reconciling_cleanup, normalize_given, default_reconciling, normalize_reconciling,
  reconciling_set_defaults,
}

-- the kinds of objects that have a policy
pub data Kind : Type 0 where
  of_stateful_set of_pvc of_config_map of_service : Kind

abbrev pub policy_of : Kind → Option ChiObjectsCleanup → String
policy_of of_stateful_set c = get_stateful_set c
policy_of of_pvc c = get_pvc c
policy_of of_config_map c = get_config_map c
policy_of of_service c = get_service c

abbrev pub unknown_policy : Kind → Option ChiReconciling → String
unknown_policy k r = policy_of k (get_unknown_objects (get_cleanup r))

abbrev pub failed_policy : Kind → Option ChiReconciling → String
failed_policy k r = policy_of k (get_reconcile_failed_objects (get_cleanup r))

-- the given policy if it is one of the two, and the default otherwise
abbrev pub decide : String → String → String
decide default p = if p == objects_cleanup_retain || p == objects_cleanup_delete then p else default

policy_of-normalize :
    (k : Kind) (c : ChiObjectsCleanup) (value : String)
    → policy_of k (some (normalize_objects c value)) ≡ decide value (policy_of k (some c))
unfolding normalize_objects normalize_cleanup get_stateful_set get_pvc get_config_map get_service
policy_of-normalize of_stateful_set c value = refl
policy_of-normalize of_pvc c value = refl
policy_of-normalize of_config_map c value = refl
policy_of-normalize of_service c value = refl

normal_unknown :
    (k : Kind) (c : Option ChiObjectsCleanup)
    → policy_of k (normalize_found c default_unknown_objects objects_cleanup_delete)
      ≡ decide objects_cleanup_delete (policy_of k c)
unfolding normalize_found get_stateful_set get_pvc get_config_map get_service normalize_objects
    default_unknown_objects normalize_cleanup
normal_unknown k (some c) = policy_of-normalize k c objects_cleanup_delete
normal_unknown of_stateful_set none = refl
normal_unknown of_pvc none = refl
normal_unknown of_config_map none = refl
normal_unknown of_service none = refl

normal_failed :
    (k : Kind) (c : Option ChiObjectsCleanup)
    → policy_of k (normalize_found c default_reconcile_failed_objects objects_cleanup_retain)
      ≡ decide objects_cleanup_retain (policy_of k c)
unfolding normalize_found get_stateful_set get_pvc get_config_map get_service normalize_objects
    default_reconcile_failed_objects normalize_cleanup
normal_failed k (some c) = policy_of-normalize k c objects_cleanup_retain
normal_failed of_stateful_set none = refl
normal_failed of_pvc none = refl
normal_failed of_config_map none = refl
normal_failed of_service none = refl

-- the two policies of a kind, of unknown and of failed objects
abbrev pub policies : Kind → Option ChiReconciling → String × String
policies k r = (unknown_policy k r, failed_policy k r)

normalize_cleanup_lem :
    (k : Kind) (c : Option ChiCleanup)
    → (policy_of k (normalize_reconciling_cleanup c).unknown_objects
        ≡ decide objects_cleanup_delete (policy_of k (get_unknown_objects c)))
      × (policy_of k (normalize_reconciling_cleanup c).reconcile_failed_objects
          ≡ decide objects_cleanup_retain (policy_of k (get_reconcile_failed_objects c)))
unfolding normalize_reconciling_cleanup get_unknown_objects get_reconcile_failed_objects
normalize_cleanup_lem k none = (normal_unknown k none, normal_failed k none)
normalize_cleanup_lem k (some c) =
    (normal_unknown k c.unknown_objects, normal_failed k c.reconcile_failed_objects)

normalize_none :
    (k : Kind)
    → policies k (some (normalize_given default_reconciling))
      ≡ (objects_cleanup_delete, objects_cleanup_retain)
unfolding normalize_given default_reconciling get_cleanup get_unknown_objects
    get_reconcile_failed_objects reconciling_set_defaults cleanup_set_defaults
    normalize_reconciling_cleanup normalize_found get_stateful_set get_pvc get_config_map
    get_service normalize_objects default_unknown_objects default_reconcile_failed_objects
    normalize_cleanup
normalize_none of_stateful_set = refl
normalize_none of_pvc = refl
normalize_none of_config_map = refl
normalize_none of_service = refl

policy_of-none : (k : Kind) → policy_of k none ≡ ""
unfolding get_stateful_set get_pvc get_config_map get_service
policy_of-none of_stateful_set = refl
policy_of-none of_pvc = refl
policy_of-none of_config_map = refl
policy_of-none of_service = refl

-- After normalisation the policy for each kind of object is the given one if that is to retain or
-- to delete, and otherwise to delete unknown objects and to retain failed ones.
pub normalize_reconciling-policies :
    (k : Kind) (r : Option ChiReconciling)
    → policies k (some (normalize_reconciling r)) ≡ (
      decide objects_cleanup_delete (unknown_policy k r),
      decide objects_cleanup_retain (failed_policy k r),
    )
unfolding normalize_reconciling get_cleanup get_unknown_objects get_reconcile_failed_objects
normalize_reconciling-policies k none = rw (policy_of-none k) (normalize_none k)
normalize_reconciling-policies k (some r) =
    unfold normalize_given in
    rw ((normalize_cleanup_lem k r.cleanup).0, (normalize_cleanup_lem k r.cleanup).1) refl
