-- ===== src/Worker/Purge/Tests.antt =====
-- Purging at a concrete registry.
use radondb_clickhouse_opera.Base.{◌≡◌, refl, String, true, false, Option, none, some, [], arith}
use radondb_clickhouse_opera.Base.Tests.{ltb}
use radondb_clickhouse_opera.Base.Lists.{AllOf}
use radondb_clickhouse_opera.Base.Dict.{lookup, insert}
use radondb_clickhouse_opera.Base.Int.{pos}
use radondb_clickhouse_opera.Registry.{
  ObjectMeta, Registry, stateful_set, config_map, has_entity, at_kind, is_equal, register_entity,
}
use radondb_clickhouse_opera.Registry.Laws.{IsSound, register-IsSound}
use radondb_clickhouse_opera.Cleanup.{ChiObjectsCleanup, get_config_map, get_unknown_objects}
use radondb_clickhouse_opera.Cleanup.Reconciling.{ChiReconciling, get_cleanup}
use radondb_clickhouse_opera.Worker.Purge.{clear}
use radondb_clickhouse_opera.Worker.Purge.Step.{allows}
use radondb_clickhouse_opera.Worker.Purge.Allowed.{deleted_of, clear-allowed}
use radondb_clickhouse_opera.Worker.Purge.Laws.{deleted, clear-spares, clear-all}

abbrev object : String → ObjectMeta
object name = record {
  namespace = "prod";
  name = name;
  labels = none;
  annotations = none;
  resource_version = "7";
  finalizers = [];
  deletion_timestamp = none;
}

abbrev holding : String → Registry
unfolding register_entity
holding name = register_entity (some []) config_map (object name)

empty-IsSound : IsSound (some [])
unfolding at_kind lookup
empty-IsSound = record { single = λ j x. omega arith; is_map = tt }

holding-IsSound : (name : String) → IsSound (holding name)
unfolding holding
holding-IsSound name = (register-IsSound [] config_map (object name) empty-IsSound).0

abbrev all : String → Option ChiObjectsCleanup
all v = some (record { stateful_set = v; pvc = v; config_map = v; service = v })

abbrev default_policies : Option ChiReconciling
default_policies = some (record {
  policy = "unspecified";
  config_map_propagation_timeout = pos 60;
  cleanup =
      some (record { unknown_objects = all "Delete"; reconcile_failed_objects = all "Retain" });
})

a_is_held : has_entity (holding "a") config_map (object "a") ≡ true
unfolding has_entity holding at_kind lookup insert is_equal
a_is_held = refl

clear-spares_example :
    deleted
      (clear default_policies (some []) false (holding "a") (holding "a")).0
      config_map
      (object "a")
    ≡ 0
clear-spares_example =
    clear-spares default_policies (some []) false (holding "a") (holding "a") config_map
      (object "a") (holding-IsSound "a") (holding-IsSound "a") a_is_held

clear-all_example :
    deleted
      (clear default_policies (some []) false (holding "b") (holding "a")).0
      config_map
      (object "b")
    ≡ 1
unfolding has_entity holding at_kind lookup insert is_equal get_config_map get_unknown_objects
    get_cleanup
clear-all_example =
    clear-all default_policies (some []) (holding "b") (holding "a") config_map (object "b")
      (holding-IsSound "b") (holding-IsSound "a") refl

clear-allowed_example :
    AllOf
      (λ d. allows default_policies (some []) d.0 d.1 ≡ true)
      (clear default_policies (some []) false (holding "b") (holding "a")).0
    × ((clear default_policies (some []) false (holding "b") (holding "a")).1
        ≡ ltb 0 (
            deleted_of stateful_set
              (clear default_policies (some []) false (holding "b") (holding "a")).0))
clear-allowed_example = clear-allowed default_policies (some []) false (holding "b") (holding "a")
