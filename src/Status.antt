-- ===== src/Status.antt =====
-- pkg/apis/clickhouse.radondb.com/v1/type_status.go: the status that the operator writes into an
-- installation. Methods return the new status. The normalised specification that the status
-- carries for its readers has no field here.
pub mod History
mod Tests
use radondb_clickhouse_opera.Base.{ℕ, zero, suc, String, List, [], ◌∷◌}
use radondb_clickhouse_opera.Base.Tests.{ltb, if◌then◌else◌}
use radondb_clickhouse_opera.Base.Lists.{length}

abbrev pub status_creating : String
status_creating = "Creating"

abbrev pub status_in_progress : String
status_in_progress = "InProgress"

abbrev pub status_completed : String
status_completed = "Completed"

abbrev pub status_running : String
status_running = "Running"

abbrev pub status_create_failed : String
status_create_failed = "CreateFailed"

abbrev pub status_update_failed : String
status_update_failed = "UpdateFailed"

abbrev pub status_terminating : String
status_terminating = "Terminating"

pub record ChiStatus : Type 0 where
  pub version : String
  pub clusters_count : ℕ
  pub shards_count : ℕ
  pub replicas_count : ℕ
  pub hosts_count : ℕ
  pub status : String
  pub task_id : String
  pub task_ids_started : List String
  pub task_ids_completed : List String
  pub action : String
  pub actions : List String
  pub error : String
  pub errors : List String
  pub updated_hosts_count : ℕ
  pub added_hosts_count : ℕ
  pub deleted_hosts_count : ℕ
  pub delete_hosts_count : ℕ
  pub pods : List String
  pub fqdns : List String
  pub endpoint : String
  pub generation : ℕ

abbrev pub max_actions : ℕ
max_actions = 100

abbrev pub max_errors : ℕ
max_errors = 100

abbrev pub max_task_ids : ℕ
max_task_ids = 100

-- `xs[:n]`
abbrev pub take : ℕ → List String → List String
take zero xs = []
take (suc n) [] = []
take (suc n) (x ∷ xs) = x ∷ take n xs

-- prepend, and cut what exceeds the maximum
unfoldable pub push : ℕ → String → List String → List String
push max x xs = if ltb max (length (x ∷ xs)) then take max (x ∷ xs) else x ∷ xs

unfoldable pub push_action : String → ChiStatus → ChiStatus
push_action a s = record s { actions = push max_actions a s.actions }

unfoldable pub set_and_push_error : String → ChiStatus → ChiStatus
set_and_push_error e s = record s { error = e; errors = push max_errors e s.errors }

unfoldable pub push_task_id_started : ChiStatus → ChiStatus
push_task_id_started s = record s {
  task_ids_started = push max_task_ids s.task_id s.task_ids_started;
}

unfoldable pub push_task_id_completed : ChiStatus → ChiStatus
push_task_id_completed s = record s {
  task_ids_completed = push max_task_ids s.task_id s.task_ids_completed;
}

unfoldable pub reconcile_update_start : ℕ → ChiStatus → ChiStatus
reconcile_update_start delete_hosts s = push_task_id_started (record s {
  status = status_in_progress;
  updated_hosts_count = 0;
  added_hosts_count = 0;
  deleted_hosts_count = 0;
  delete_hosts_count = delete_hosts;
})

unfoldable pub reconcile_create_start : ℕ → ChiStatus → ChiStatus
reconcile_create_start delete_hosts s = push_task_id_started (record s {
  status = status_creating;
  updated_hosts_count = 0;
  added_hosts_count = 0;
  deleted_hosts_count = 0;
  delete_hosts_count = delete_hosts;
})

unfoldable pub reconcile_complete : ChiStatus → ChiStatus
reconcile_complete s = push_task_id_completed (record s { status = status_completed; action = "" })

unfoldable pub running : ChiStatus → ChiStatus
running s = record s { status = status_running; action = "" }

unfoldable pub reconcile_create_failed : ChiStatus → ChiStatus
reconcile_create_failed s = record s { status = status_create_failed }

unfoldable pub reconcile_update_failed : ChiStatus → ChiStatus
reconcile_update_failed s = record s { status = status_update_failed }

unfoldable pub delete_start : ChiStatus → ChiStatus
delete_start s = push_task_id_started (record s {
  status = status_terminating;
  updated_hosts_count = 0;
  added_hosts_count = 0;
  deleted_hosts_count = 0;
  delete_hosts_count = 0;
})
