-- ===== src/Cleanup.antt =====
-- The cleanup policies of pkg/apis/clickhouse.radondb.com/v1/types.go, their merging, and their
-- normalisation in pkg/model/normalizer.go. A pointer to a policy is an `Option`.
pub mod Reconciling
pub mod Laws
mod Tests
use radondb_clickhouse_opera.Base.{String, Option, none, some, ◌==◌}
use radondb_clickhouse_opera.Base.Tests.{if◌then◌else◌}
use radondb_clickhouse_opera.TemplateNames.{
  MergeType, merge_type_fill_empty_values, merge_type_override_by_non_empty_values,
}

abbrev pub objects_cleanup_retain : String
objects_cleanup_retain = "Retain"

abbrev pub objects_cleanup_delete : String
objects_cleanup_delete = "Delete"

pub record ChiObjectsCleanup : Type 0 where
  pub stateful_set : String
  pub pvc : String
  pub config_map : String
  pub service : String

abbrev pub new_chi_objects_cleanup : ChiObjectsCleanup
new_chi_objects_cleanup = record { stateful_set = ""; pvc = ""; config_map = ""; service = "" }

-- `if to == "" { to = from }`
unfoldable pub fill_text : String → String → String
fill_text to from = if to == "" then from else to

-- `if from != "" { to = from }`
unfoldable pub override_text : String → String → String
override_text to from = if from == "" then to else from

unfoldable pub merge_objects_found :
    MergeType → ChiObjectsCleanup → ChiObjectsCleanup → ChiObjectsCleanup
merge_objects_found merge_type_fill_empty_values c from = record {
  stateful_set = fill_text c.stateful_set from.stateful_set;
  pvc = fill_text c.pvc from.pvc;
  config_map = fill_text c.config_map from.config_map;
  service = fill_text c.service from.service;
}
merge_objects_found merge_type_override_by_non_empty_values c from = record {
  stateful_set = override_text c.stateful_set from.stateful_set;
  pvc = override_text c.pvc from.pvc;
  config_map = override_text c.config_map from.config_map;
  service = override_text c.service from.service;
}

abbrev pub ensure_objects : Option ChiObjectsCleanup → ChiObjectsCleanup
ensure_objects none = new_chi_objects_cleanup
ensure_objects (some c) = c

unfoldable pub merge_objects :
    Option ChiObjectsCleanup → Option ChiObjectsCleanup → MergeType → Option ChiObjectsCleanup
merge_objects c none t = c
merge_objects c (some from) t = some (merge_objects_found t (ensure_objects c) from)

unfoldable pub get_stateful_set : Option ChiObjectsCleanup → String
get_stateful_set none = ""
get_stateful_set (some c) = c.stateful_set

unfoldable pub set_stateful_set : Option ChiObjectsCleanup → String → Option ChiObjectsCleanup
set_stateful_set none v = none
set_stateful_set (some c) v = some (record c { stateful_set = v })

unfoldable pub get_pvc : Option ChiObjectsCleanup → String
get_pvc none = ""
get_pvc (some c) = c.pvc

unfoldable pub set_pvc : Option ChiObjectsCleanup → String → Option ChiObjectsCleanup
set_pvc none v = none
set_pvc (some c) v = some (record c { pvc = v })

unfoldable pub get_config_map : Option ChiObjectsCleanup → String
get_config_map none = ""
get_config_map (some c) = c.config_map

unfoldable pub set_config_map : Option ChiObjectsCleanup → String → Option ChiObjectsCleanup
set_config_map none v = none
set_config_map (some c) v = some (record c { config_map = v })

unfoldable pub get_service : Option ChiObjectsCleanup → String
get_service none = ""
get_service (some c) = c.service

unfoldable pub set_service : Option ChiObjectsCleanup → String → Option ChiObjectsCleanup
set_service none v = none
set_service (some c) v = some (record c { service = v })

pub record ChiCleanup : Type 0 where
  pub unknown_objects : Option ChiObjectsCleanup
  pub reconcile_failed_objects : Option ChiObjectsCleanup

abbrev pub new_chi_cleanup : ChiCleanup
new_chi_cleanup = record { unknown_objects = none; reconcile_failed_objects = none }

abbrev pub ensure_cleanup : Option ChiCleanup → ChiCleanup
ensure_cleanup none = new_chi_cleanup
ensure_cleanup (some c) = c

unfoldable pub merge_cleanup : Option ChiCleanup → Option ChiCleanup → MergeType → Option ChiCleanup
merge_cleanup c none t = c
merge_cleanup c (some from) t =
    let to = ensure_cleanup c in
    some (record {
      unknown_objects = merge_objects to.unknown_objects from.unknown_objects t;
      reconcile_failed_objects =
          merge_objects to.reconcile_failed_objects from.reconcile_failed_objects t;
    })

unfoldable pub get_unknown_objects : Option ChiCleanup → Option ChiObjectsCleanup
get_unknown_objects none = none
get_unknown_objects (some t) = t.unknown_objects

abbrev pub default_unknown_objects : Option ChiObjectsCleanup
unfolding set_stateful_set set_pvc set_config_map set_service
default_unknown_objects =
    set_service
      (set_config_map
        (set_pvc (set_stateful_set (some new_chi_objects_cleanup) objects_cleanup_delete)
          objects_cleanup_delete)
        objects_cleanup_delete)
      objects_cleanup_delete

unfoldable pub get_reconcile_failed_objects : Option ChiCleanup → Option ChiObjectsCleanup
get_reconcile_failed_objects none = none
get_reconcile_failed_objects (some t) = t.reconcile_failed_objects

abbrev pub default_reconcile_failed_objects : Option ChiObjectsCleanup
unfolding set_stateful_set set_pvc set_config_map set_service
default_reconcile_failed_objects =
    set_service
      (set_config_map
        (set_pvc (set_stateful_set (some new_chi_objects_cleanup) objects_cleanup_retain)
          objects_cleanup_retain)
        objects_cleanup_retain)
      objects_cleanup_retain

unfoldable pub cleanup_set_defaults : Option ChiCleanup → Option ChiCleanup
cleanup_set_defaults none = none
cleanup_set_defaults (some t) = some (record t {
  unknown_objects = default_unknown_objects;
  reconcile_failed_objects = default_reconcile_failed_objects;
})
