-- ===== src/Worker/Purge.antt =====
-- The deletion of objects that a reconcile did not produce: clear and purge of
-- pkg/controller/chi/worker.go, and GetReclaimPolicy of pkg/model/labeler.go. The objects that the
-- cluster has are an argument, since they come from the Kubernetes API; the calls that delete are
-- listed in their order, and the code ignores their errors.
pub mod Step
pub mod Allowed
pub mod Laws
mod Tests
use radondb_clickhouse_opera.Base.{
  ℕ, suc, String, Bool, true, false, Option, none, some, List, [], ◌∷◌, ◌++◌, ◌==◌, ◌||◌,
}
use radondb_clickhouse_opera.Base.Tests.{ltb, if◌then◌else◌}
use radondb_clickhouse_opera.Util.Maps.{get}
use radondb_clickhouse_opera.Registry.{
  ObjectMeta, Entities, Registry, stateful_set, config_map, service, pvc, subtract,
}
use radondb_clickhouse_opera.Registry.Kinds.{has_stateful_set, has_pvc, has_config_map, has_service}
use radondb_clickhouse_opera.Cleanup.{
  objects_cleanup_delete, get_stateful_set, get_pvc, get_config_map, get_service,
  get_unknown_objects, get_reconcile_failed_objects,
}
use radondb_clickhouse_opera.Cleanup.Reconciling.{ChiReconciling, get_cleanup}

abbrev pub pvc_reclaim_policy_retain : String
pvc_reclaim_policy_retain = "Retain"

abbrev pub pvc_reclaim_policy_delete : String
pvc_reclaim_policy_delete = "Delete"

abbrev pub label_pvc_reclaim_policy_name : String
label_pvc_reclaim_policy_name = "clickhouse.radondb.com/reclaimPolicy"

unfoldable pub is_valid : String → Bool
is_valid v = v == pvc_reclaim_policy_retain || v == pvc_reclaim_policy_delete

unfoldable pub reclaim_policy_of : Option String → String
unfolding is_valid
reclaim_policy_of none = pvc_reclaim_policy_delete
reclaim_policy_of (some value) = if is_valid value then value else pvc_reclaim_policy_delete

unfoldable pub get_reclaim_policy : ObjectMeta → String
unfolding reclaim_policy_of
get_reclaim_policy meta = reclaim_policy_of (get meta.labels label_pvc_reclaim_policy_name)

-- the calls that delete an object of a kind, and `cnt`
pub record Purged : Type 0 where
  pub deletions : List (String × ObjectMeta)
  pub cnt : ℕ

-- `Delete` of the object, whose error is ignored
abbrev pub delete : String → ObjectMeta → Purged → Purged
delete et m p = record p { deletions = p.deletions ++ ((et, m) ∷ []) }

abbrev pub nothing : Purged
nothing = record { deletions = []; cnt = 0 }

module _ (reconciling : Option ChiReconciling) (failed : Registry) where
  unfoldable pub purge_stateful_set : ObjectMeta → Bool
  purge_stateful_set m =
      if has_stateful_set failed m
      then get_stateful_set (get_reconcile_failed_objects (get_cleanup reconciling))
        == objects_cleanup_delete
      else get_stateful_set (get_unknown_objects (get_cleanup reconciling))
        == objects_cleanup_delete

  unfoldable pub purge_pvc : ObjectMeta → Bool
  purge_pvc m =
      if has_pvc failed m
      then get_pvc (get_reconcile_failed_objects (get_cleanup reconciling))
        == objects_cleanup_delete
      else get_pvc (get_unknown_objects (get_cleanup reconciling)) == objects_cleanup_delete

  unfoldable pub purge_config_map : ObjectMeta → Bool
  purge_config_map m =
      if has_config_map failed m
      then get_config_map (get_reconcile_failed_objects (get_cleanup reconciling))
        == objects_cleanup_delete
      else get_config_map (get_unknown_objects (get_cleanup reconciling)) == objects_cleanup_delete

  unfoldable pub purge_service : ObjectMeta → Bool
  purge_service m =
      if has_service failed m
      then get_service (get_reconcile_failed_objects (get_cleanup reconciling))
        == objects_cleanup_delete
      else get_service (get_unknown_objects (get_cleanup reconciling)) == objects_cleanup_delete

  -- the body of the walk
  unfoldable pub purge_object : String → ObjectMeta → Purged → Purged
  purge_object et m p =
      if et == stateful_set
      then (if purge_stateful_set m
          then (let q = delete et m p in record q { cnt = suc q.cnt })
          else p)
      else if et == pvc
      then (if purge_pvc m
          then (if get_reclaim_policy m == pvc_reclaim_policy_delete then delete et m p else p)
          else p)
      else if et == config_map
      then (if purge_config_map m then delete et m p else p)
      else if et == service
      then (if purge_service m then delete et m p else p)
      else p

  unfoldable pub walk_objects : String → List ObjectMeta → Purged → Purged
  walk_objects et [] p = p
  walk_objects et (m ∷ ms) p = walk_objects et ms (purge_object et m p)

  unfoldable pub walk_kinds : Entities → Purged → Purged
  walk_kinds [] p = p
  walk_kinds ((et, ms) ∷ r) p = walk_kinds r (walk_objects et ms p)

  -- the first argument says whether the context is done
  unfoldable pub purge : Bool → Registry → Purged
  purge true reg = nothing
  purge false none = nothing
  purge false (some r) = walk_kinds r nothing

  -- The calls that delete, and whether the deletion of a DNS entry is enqueued.
  unfoldable pub clear : Bool → Registry → Registry → List (String × ObjectMeta) × Bool
  clear ctx_done objs need =
      let purged = purge ctx_done (subtract objs need) in (purged.deletions, ltb 0 purged.cnt)
