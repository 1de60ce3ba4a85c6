-- ===== src/Status/Tests.antt =====
-- A status that goes through a reconcile.
use radondb_clickhouse_opera.Base.{◌≤◌, ◌≡◌, List, [], ◌∷◌, arith}
use radondb_clickhouse_opera.Base.Lists.{length}
use radondb_clickhouse_opera.Status.{ChiStatus}
use radondb_clickhouse_opera.Status.History.{
  Call, call_update_start, call_push_action, call_complete, call_running, of_started, history,
  perform_all, history-perform_all_cut,
}

abbrev fresh : ChiStatus
fresh = record {
  version = "1";
  clusters_count = 1;
  shards_count = 1;
  replicas_count = 1;
  hosts_count = 1;
  status = "";
  task_id = "t2";
  task_ids_started = "t1" ∷ [];
  task_ids_completed = "t1" ∷ [];
  action = "";
  actions = [];
  error = "";
  errors = [];
  updated_hosts_count = 0;
  added_hosts_count = 0;
  deleted_hosts_count = 0;
  delete_hosts_count = 0;
  pods = [];
  fqdns = [];
  endpoint = "";
  generation = 1;
}

abbrev a_reconcile : List Call
a_reconcile = call_update_start 0 ∷ call_push_action "a" ∷ call_complete ∷ call_running ∷ []

history-perform_all_cut_example :
    (history of_started (perform_all a_reconcile fresh) ≡ "t2" ∷ "t1" ∷ [])
    × (length (history of_started (perform_all a_reconcile fresh)) ≤ 100)
history-perform_all_cut_example = history-perform_all_cut of_started a_reconcile fresh (omega arith)
