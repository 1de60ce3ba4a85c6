-- ===== src/Cleanup/Tests.antt =====
-- Cleanup policies at a concrete installation.
use radondb_clickhouse_opera.Base.{◌≡◌, refl, none, some}
use radondb_clickhouse_opera.Base.Int.{pos}
use radondb_clickhouse_opera.Util.Text.{same, to_lower}
use radondb_clickhouse_opera.Cleanup.{get_pvc, get_reconcile_failed_objects, get_unknown_objects}
use radondb_clickhouse_opera.Cleanup.Reconciling.{
  ChiReconciling, get_cleanup, normalize_reconciling,
}
use radondb_clickhouse_opera.Cleanup.Laws.{of_pvc, policies, normalize_reconciling-policies}

abbrev given : ChiReconciling
given = record {
  policy = "Wait";
  config_map_propagation_timeout = pos 5;
  cleanup = some (record {
    unknown_objects =
        some (record { stateful_set = ""; pvc = "Retain"; config_map = "x"; service = "Delete" });
    reconcile_failed_objects = none;
  });
}

normalize_reconciling-policies_example :
    policies of_pvc (some (normalize_reconciling (some given))) ≡ ("Retain", "Retain")
unfolding get_pvc get_unknown_objects get_reconcile_failed_objects get_cleanup
normalize_reconciling-policies_example = normalize_reconciling-policies of_pvc (some given)

waits : (normalize_reconciling (some given)).policy ≡ "wait"
unfolding normalize_reconciling same to_lower
waits = refl
