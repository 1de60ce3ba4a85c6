-- ===== src/Worker/Objects/Tests.antt =====
-- A ConfigMap that is missing, and a service that cannot be updated.
use radondb_clickhouse_opera.Base.{ℕ, ◌≡◌, refl, Bool, true, false, Option, none, some, []}
use radondb_clickhouse_opera.Base.Tests.{leb}
use radondb_clickhouse_opera.Registry.{ObjectMeta, config_map, has_entity}
use radondb_clickhouse_opera.Worker.Objects.{
  Error, not_found, other_error, Call, get_call, list_call, update_call, create_call, delete_call,
  Reply, World, reconcile_host_config_map,
}
use radondb_clickhouse_opera.Worker.Objects.Registered.{
  IsRecorded, reconcile_host_config_map-IsRecorded, reconcile_host_config_map-ended,
}

abbrev object : ObjectMeta
object = record {
  namespace = "prod";
  name = "common";
  labels = none;
  annotations = none;
  resource_version = "";
  finalizers = [];
  deletion_timestamp = none;
}

abbrev start : World
start = record { time = 0; log = []; reconciled = some []; failed = some [] }

abbrev live : ℕ → Bool
live n = false

-- the context ends after the first check
abbrev ending : ℕ → Bool
ending n = leb 1 n

abbrev no_selector_error : ObjectMeta → Option Error
no_selector_error meta = none

-- an API without any object, in which updates fail
abbrev empty_api : Call → ℕ → Reply
empty_api (get_call et meta) n = record { error = some not_found; objects = 0 }
empty_api (list_call et meta) n = record { error = none; objects = 0 }
empty_api (update_call et meta) n = record { error = some other_error; objects = 0 }
empty_api (create_call et meta) n = record { error = none; objects = 1 }
empty_api (delete_call et meta) n = record { error = none; objects = 1 }

reconcile_host_config_map-IsRecorded_example :
    IsRecorded config_map object start
      (reconcile_host_config_map live empty_api no_selector_error object start)
reconcile_host_config_map-IsRecorded_example =
    reconcile_host_config_map-IsRecorded live empty_api no_selector_error object start (λ n. refl)
      tt tt

reconcile_host_config_map-ended_example :
    (has_entity
        (reconcile_host_config_map ending empty_api no_selector_error object start).1.reconciled
        config_map
        object
      ≡ true)
    × ((reconcile_host_config_map ending empty_api no_selector_error object start).1.log ≡ [])
reconcile_host_config_map-ended_example =
    reconcile_host_config_map-ended ending empty_api no_selector_error object start refl refl tt
