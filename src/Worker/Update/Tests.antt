-- ===== src/Worker/Update/Tests.antt =====
-- An installation that is created, and whose items cannot be reconciled.
use radondb_clickhouse_opera.Base.{true, false, none, [], ◌∷◌}
use radondb_clickhouse_opera.Status.{ChiStatus}
use radondb_clickhouse_opera.Worker.Update.{Installation, Answers, finalizer_name}

abbrev fresh : ChiStatus
fresh = record {
  version = "1";
  clusters_count = 1;
  shards_count = 1;
  replicas_count = 1;
  hosts_count = 1;
  status = "";
  task_id = "t1";
  task_ids_started = [];
  task_ids_completed = [];
  action = "";
  actions = [];
  error = "";
  errors = [];
  updated_hosts_count = 0;
  added_hosts_count = 0;
  deleted_hosts_count = 0;
  delete_hosts_count = 0;
  pods = [];
  fqdns = [];
  endpoint = "";
  generation = 1;
}

abbrev installation : Installation
installation = record {
  meta = record {
    namespace = "prod";
    name = "chi";
    labels = none;
    annotations = none;
    resource_version = "7";
    finalizers = finalizer_name ∷ [];
    deletion_timestamp = none;
  };
  stop = "";
  status = fresh;
}

abbrev failing : Answers
failing = record {
  done_at_update = false;
  done_at_finalizer = false;
  done_at_delete = false;
  install_failed = false;
  installation_found = true;
  get_failed = false;
  done_at_protocol = false;
  normalize_failed = false;
  status_write_failed = false;
  has_actions = true;
  removed_hosts = 0;
  reconcile_failed = true;
  ping_failed = false;
}
