-- ===== src/Worker/Purge/Step.antt =====
-- One step of the walk that purges: which objects the policies allow to delete.
use radondb_clickhouse_opera.Base.{
  suc, String, ◌≡◌, ◌⊎◌, refl, sym, Bool, true, false, not, ◌&&◌, inl, inr, Option, none, some, [],
  ◌∷◌, ◌++◌, arith, ◌==◌, eq_iff,
}
use radondb_clickhouse_opera.Base.Tests.{if◌then◌else◌, Bool-cases}
use radondb_clickhouse_opera.Util.Maps.{get}
use radondb_clickhouse_opera.Registry.{
  ObjectMeta, Registry, stateful_set, config_map, service, pvc, has_entity,
}
use radondb_clickhouse_opera.Registry.Kinds.{has_stateful_set, has_pvc, has_config_map, has_service}
use radondb_clickhouse_opera.Cleanup.{objects_cleanup_delete}
use radondb_clickhouse_opera.Cleanup.Reconciling.{ChiReconciling}
use radondb_clickhouse_opera.Cleanup.Laws.{
  Kind, of_stateful_set, of_pvc, of_config_map, of_service, unknown_policy, failed_policy,
}
use radondb_clickhouse_opera.Worker.Purge.{
  Purged, delete, is_valid, reclaim_policy_of, get_reclaim_policy, pvc_reclaim_policy_delete,
  purge_stateful_set, purge_pvc, purge_config_map, purge_service, purge_object,
}

abbrev pub kind_of : String → Option Kind
kind_of et =
    if et == stateful_set
    then some of_stateful_set
    else if et == pvc
    then some of_pvc
    else if et == config_map
    then some of_config_map
    else if et == service
    then some of_service
    else none

abbrev has_value : Option String → String → Bool
has_value none w = false
has_value (some v) w = v == w

-- does a label ask to retain the volume?
abbrev pub is_labelled_retain : ObjectMeta → Bool
is_labelled_retain m = has_value (get m.labels "clickhouse.radondb.com/reclaimPolicy") "Retain"

label_allows :
    (o : Option String)
    → (reclaim_policy_of o == pvc_reclaim_policy_delete) ≡ not (has_value o "Retain")
unfolding reclaim_policy_of is_valid
label_allows none = refl
label_allows (some v) = elim (Bool-cases (v == "Retain")) [
  | inl e ↦ rw ((eq_iff v "Retain").0 e) refl
  | inr e ↦ elim (Bool-cases (v == "Delete")) [
    | inl d ↦ rw ((eq_iff v "Delete").0 d) refl
    | inr d ↦ rw (e, d) refl
  ]
]

reclaim-label :
    (m : ObjectMeta)
    → (get_reclaim_policy m == pvc_reclaim_policy_delete) ≡ not (is_labelled_retain m)
unfolding get_reclaim_policy
reclaim-label m = label_allows (get m.labels "clickhouse.radondb.com/reclaimPolicy")

-- One step of the walk adds the object to the deletions if the first argument says so.
abbrev pub added : Bool → String → ObjectMeta → Purged → Purged
added b et m p = record {
  deletions = if b then p.deletions ++ ((et, m) ∷ []) else p.deletions;
  cnt = if b && et == stateful_set then suc p.cnt else p.cnt;
}

-- at a kind that is not that of StatefulSets, and at that kind
delete-added :
    (b : Bool) (et : String) (m : ObjectMeta) (p : Purged)
    → (et == stateful_set) ≡ false
    → (if b then delete et m p else p) ≡ added (b && true) et m p
delete-added true et m p h = rw h refl
delete-added false et m p h = refl

delete_set-added :
    (b : Bool) (m : ObjectMeta) (p : Purged)
    → (if b then record (delete stateful_set m p) { cnt = suc p.cnt } else p)
      ≡ added (b && true) stateful_set m p
delete_set-added true m p = refl
delete_set-added false m p = refl

delete_pvc-added :
    (b c : Bool) (m : ObjectMeta) (p : Purged)
    → (if b then (if c then delete pvc m p else p) else p) ≡ added (b && c) pvc m p
delete_pvc-added true true m p = refl
delete_pvc-added true false m p = refl
delete_pvc-added false c m p = refl

module _ (reconciling : Option ChiReconciling) (failed : Registry) where
  -- the policy for a kind is that of failed objects if the object is registered as failed
  abbrev pub policy_for : Kind → String → ObjectMeta → String
  policy_for k et m =
      if has_entity failed et m then failed_policy k reconciling else unknown_policy k reconciling

  abbrev pub kind_allows : Option Kind → String → ObjectMeta → Bool
  kind_allows none et m = false
  kind_allows (some k) et m = policy_for k et m == objects_cleanup_delete

  -- A volume claim must not have the label of claims that are retained besides.
  abbrev pub allows : String → ObjectMeta → Bool
  allows et m = kind_allows (kind_of et) et m && not (et == pvc && is_labelled_retain m)

  abbrev policy_test : Kind → String → ObjectMeta → Bool
  policy_test k et m = policy_for k et m == objects_cleanup_delete

  policy_test-split :
      (k : Kind) (et : String) (m : ObjectMeta)
      → policy_test k et m ≡ (
          if has_entity failed et m
          then failed_policy k reconciling == objects_cleanup_delete
          else unknown_policy k reconciling == objects_cleanup_delete)
  policy_test-split k et m = elim (Bool-cases (has_entity failed et m)) [
    | inl e ↦ rw e refl
    | inr e ↦ rw e refl
  ]

  purge_stateful_set-policy :
      (m : ObjectMeta)
      → purge_stateful_set reconciling failed m ≡ policy_test of_stateful_set stateful_set m
  unfolding purge_stateful_set has_stateful_set
  purge_stateful_set-policy m = sym (policy_test-split of_stateful_set stateful_set m)

  purge_pvc-policy : (m : ObjectMeta) → purge_pvc reconciling failed m ≡ policy_test of_pvc pvc m
  unfolding purge_pvc has_pvc
  purge_pvc-policy m = sym (policy_test-split of_pvc pvc m)

  purge_config_map-policy :
      (m : ObjectMeta)
      → purge_config_map reconciling failed m ≡ policy_test of_config_map config_map m
  unfolding purge_config_map has_config_map
  purge_config_map-policy m = sym (policy_test-split of_config_map config_map m)

  purge_service-policy :
      (m : ObjectMeta) → purge_service reconciling failed m ≡ policy_test of_service service m
  unfolding purge_service has_service
  purge_service-policy m = sym (policy_test-split of_service service m)

  kind-cases :
      (et : String)
      → (et ≡ stateful_set)
        ⊎ (et ≡ pvc)
        ⊎ (et ≡ config_map)
        ⊎ (et ≡ service)
        ⊎ (((et == stateful_set) ≡ false)
            × ((et == pvc) ≡ false)
            × ((et == config_map) ≡ false)
            × ((et == service) ≡ false))
  kind-cases et =
      ground (arith, eq_iff et stateful_set, eq_iff et pvc, eq_iff et config_map, eq_iff et service)

  pub purge_object-added :
      (et : String) (m : ObjectMeta) (p : Purged)
      → purge_object reconciling failed et m p ≡ added (allows et m) et m p
  unfolding purge_object
  purge_object-added et m p = elim (kind-cases et) [
    | inl e ↦
        rw (e, purge_stateful_set-policy m)
          (delete_set-added (policy_test of_stateful_set stateful_set m) m p)
    | inr (inl e) ↦
        rw (e, purge_pvc-policy m, reclaim-label m)
          (delete_pvc-added (policy_test of_pvc pvc m) (not (is_labelled_retain m)) m p)
    | inr (inr (inl e)) ↦
        rw (e, purge_config_map-policy m)
          (delete-added (policy_test of_config_map config_map m) config_map m p refl)
    | inr (inr (inr (inl e))) ↦
        rw (e, purge_service-policy m)
          (delete-added (policy_test of_service service m) service m p refl)
    | inr (inr (inr (inr (a, b, c, d)))) ↦ rw (a, b, c, d) refl
  ]
