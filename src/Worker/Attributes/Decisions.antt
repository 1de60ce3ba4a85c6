-- ===== src/Worker/Attributes/Decisions.antt =====
-- The decisions of pkg/controller/chi/worker.go that read a host's status: whether its tables are
-- migrated, whether it is excluded from the cluster while it changes, and whether the worker waits.
use radondb_clickhouse_opera.Base.{
  ℕ, String, Bool, true, false, Option, none, some, List, [], ◌∷◌, ◌++◌, ◌==◌,
}
use radondb_clickhouse_opera.Base.Tests.{eqb, if◌then◌else◌}
use radondb_clickhouse_opera.Util.Text.{is_string_bool_true}
use radondb_clickhouse_opera.Cleanup.Reconciling.{
  ChiReconciling, is_reconciling_policy_wait, is_reconciling_policy_no_wait,
}
use radondb_clickhouse_opera.Worker.Attributes.{
  stateful_set_status_modified, stateful_set_status_new, stateful_set_status_same,
  stateful_set_status_unknown,
}

-- what the decisions read of a host, of its shard and of its installation
pub record Host : Type 0 where
  pub status : String
  pub stop : String
  pub restart : String
  pub reconciling : Option ChiReconciling
  pub shard_hosts_count : ℕ

-- the operator's own settings, used if the installation has no policy
pub record WaitConfig : Type 0 where
  pub reconcile_wait_exclude : Bool
  pub reconcile_wait_include : Bool

abbrev pub restart_rolling_update : String
restart_rolling_update = "RollingUpdate"

unfoldable pub is_stopped : Host → Bool
is_stopped host = is_string_bool_true host.stop

unfoldable pub is_rolling_update : Host → Bool
is_rolling_update host = host.restart == restart_rolling_update

unfoldable pub should_migrate_tables : Host → Bool
should_migrate_tables host =
    if is_stopped host
    then false
    else if host.status == stateful_set_status_same
    then false
    else true

unfoldable pub should_exclude_host : Host → Bool
should_exclude_host host =
    if is_rolling_update host
    then true
    else if host.status == stateful_set_status_new
    then false
    else if host.status == stateful_set_status_same
    then false
    else if eqb host.shard_hosts_count 1
    then false
    else true

unfoldable pub should_wait_exclude_host : WaitConfig → Host → Bool
should_wait_exclude_host config host =
    if is_reconciling_policy_wait host.reconciling
    then true
    else if is_reconciling_policy_no_wait host.reconciling
    then false
    else config.reconcile_wait_exclude

unfoldable pub should_wait_include_host : WaitConfig → Host → Bool
should_wait_include_host config host =
    if host.status == stateful_set_status_new
    then false
    else if host.status == stateful_set_status_same
    then false
    else if eqb host.shard_hosts_count 1
    then false
    else if is_reconciling_policy_wait host.reconciling
    then true
    else if is_reconciling_policy_no_wait host.reconciling
    then false
    else config.reconcile_wait_include

compare_versions : Option String → Option String → String
compare_versions none new = stateful_set_status_unknown
compare_versions (some cur) none = stateful_set_status_unknown
compare_versions (some cur) (some new) =
    if cur == new then stateful_set_status_same else stateful_set_status_modified

-- The Kubernetes API answers with the version label of the StatefulSet that it has, if it has one,
-- or with an error that may say that there is none.
unfoldable pub get_stateful_set_status : Option (Option String) → Bool → Option String → String
unfolding compare_versions
get_stateful_set_status (some cur) not_found new = compare_versions cur new
get_stateful_set_status none true new = stateful_set_status_new
get_stateful_set_status none false new = stateful_set_status_unknown

-- the calls that exclude a host and include it again, while the context is not done
pub data Effect : Type 0 where
  delete_label_ready append_label_ready : Effect
  reconcile_config_without_host reconcile_config : Effect
  wait_host_not_in_cluster wait_host_in_cluster wait_host_no_active_queries : Effect

unfoldable pub exclude_host_from_click_house_cluster : WaitConfig → Host → List Effect
exclude_host_from_click_house_cluster config host =
    if should_wait_exclude_host config host
    then reconcile_config_without_host ∷ wait_host_not_in_cluster ∷ []
    else []

unfoldable pub include_host_into_click_house_cluster : WaitConfig → Host → List Effect
include_host_into_click_house_cluster config host =
    reconcile_config
    ∷ (if should_wait_include_host config host then wait_host_in_cluster ∷ [] else [])

unfoldable pub exclude_host : WaitConfig → Host → List Effect
exclude_host config host =
    if should_exclude_host host
    then delete_label_ready ∷ exclude_host_from_click_house_cluster config host
      ++ (wait_host_no_active_queries ∷ [])
    else []

unfoldable pub include_host : WaitConfig → Host → List Effect
include_host config host =
    include_host_into_click_house_cluster config host ++ (append_label_ready ∷ [])
