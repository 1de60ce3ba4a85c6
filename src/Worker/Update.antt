-- ===== src/Worker/Update.antt =====
-- updateCHI of pkg/controller/chi/worker.go: what the worker does with an installation that was
-- added or changed, in the order of its steps, and the status that it asks last to be written. What
-- the context, the Kubernetes API, the reconcile of the items and ClickHouse answer is an argument,
-- and so is the action plan, which the normalised installations lead to. The actions and errors that
-- the announcer pushes into the status besides are left out.
pub mod Steps
pub mod Laws
mod Tests
use radondb_clickhouse_opera.Base.{
  ℕ, String, Bool, true, false, not, ◌&&◌, ◌||◌, Option, none, some, List, [], ◌∷◌, ◌++◌, ◌==◌,
}
use radondb_clickhouse_opera.Base.Tests.{if◌then◌else◌, is_some}
use radondb_clickhouse_opera.Base.Lists.{contains}
use radondb_clickhouse_opera.Util.Text.{is_string_bool_true}
use radondb_clickhouse_opera.Registry.{ObjectMeta}
use radondb_clickhouse_opera.Status.{
  ChiStatus, reconcile_update_start, reconcile_create_start, reconcile_complete, running,
  delete_start, reconcile_create_failed, reconcile_update_failed,
}

abbrev pub finalizer_name : String
finalizer_name = "finalizer.clickhouseinstallation.radondb.com"

-- what the worker reads of an installation
pub record Installation : Type 0 where
  pub meta : ObjectMeta
  pub stop : String
  pub status : ChiStatus

-- the answers; whether the context is done is asked at four places, each with its own answer
pub record Answers : Type 0 where
  pub done_at_update : Bool
  pub done_at_finalizer : Bool
  pub done_at_delete : Bool
  pub install_failed : Bool
  pub installation_found : Bool
  pub get_failed : Bool
  pub done_at_protocol : Bool
  pub normalize_failed : Bool
  pub status_write_failed : Bool
  pub has_actions : Bool
  pub removed_hosts : ℕ
  pub reconcile_failed : Bool
  pub ping_failed : Bool

-- the steps that others see; a status that is to be written is given by its text, the new
-- registries come with a reset of the time of the ConfigMap's update, and the deletion of the
-- objects of an installation, with its checks of the context, is one step
pub data Effect : Type 0 where
  reset_registries install_finalizer delete_protocol uninstall_finalizer : Effect
  write_status : String → Effect
  exclude_from_monitoring walk_hosts reconcile clear drop_replicas include_in_monitoring : Effect

-- the result says whether the finalizer was installed
unfoldable pub ensure_finalizer : Answers → ObjectMeta → Bool × List Effect
ensure_finalizer a meta =
    if a.done_at_finalizer
    then (false, [])
    else if is_some meta.deletion_timestamp
    then (false, [])
    else if contains meta.finalizers finalizer_name
    then (false, [])
    else if a.install_failed
    then (false, install_finalizer ∷ [])
    else (true, install_finalizer ∷ [])

-- a status with the writes of it
abbrev pub written : ChiStatus → List Effect
written s = write_status s.status ∷ []

-- The status says that the deletion has begun; an error of its write ends the protocol.
unfoldable pub delete_chi_protocol : Answers → ChiStatus → List Effect × ChiStatus
delete_chi_protocol a status =
    let begun : ChiStatus = delete_start status in
    if a.done_at_protocol
    then ([], status)
    else if a.normalize_failed
    then ([], status)
    else if a.status_write_failed
    then (written begun, begun)
    else (written begun ++ (delete_protocol ∷ []), begun)

-- the result says whether the installation was deleted
unfoldable pub delete_chi : Answers → Installation → Bool × List Effect × ChiStatus
delete_chi a chi =
    let deleted = delete_chi_protocol a chi.status in
    if a.done_at_delete
    then (false, [], chi.status)
    else if not (is_some chi.meta.deletion_timestamp)
    then (false, [], chi.status)
    else if not a.installation_found
    then (false, [], chi.status)
    else if a.get_failed
    then (false, [], chi.status)
    else if not (contains chi.meta.finalizers finalizer_name)
    then (false, [], chi.status)
    else (true, deleted.0 ++ (uninstall_finalizer ∷ []), deleted.1)

unfoldable pub is_stopped : Installation → Bool
is_stopped chi = is_string_bool_true chi.stop

unfoldable pub exclude_stopped : Installation → List Effect
exclude_stopped chi = if is_stopped chi then exclude_from_monitoring ∷ [] else []

unfoldable pub include_stopped : Installation → List Effect
include_stopped chi = if is_stopped chi then [] else include_in_monitoring ∷ []

unfoldable pub mark_reconcile_start : Answers → Bool → ChiStatus → ChiStatus
mark_reconcile_start a update s =
    if update
    then reconcile_update_start a.removed_hosts s
    else reconcile_create_start a.removed_hosts s

unfoldable pub mark_failed : Bool → ChiStatus → ChiStatus
mark_failed update s = if update then reconcile_update_failed s else reconcile_create_failed s

unfoldable pub mark_reconcile_complete : Answers → Bool → ChiStatus → List Effect × ChiStatus
mark_reconcile_complete a update s =
    let done : ChiStatus = reconcile_complete s in
    let failed : ChiStatus = mark_failed update done in
    let ready : ChiStatus = running done in
    if a.ping_failed
    then (written done ++ written failed, failed)
    else (written done ++ written ready, ready)

-- what follows the reconcile of the items, which failed or not
unfoldable pub after_reconcile :
    Answers → Bool → Installation → Bool → ChiStatus → List Effect × ChiStatus
after_reconcile a update chi true begun =
    let failed : ChiStatus = mark_failed update begun in (written failed, failed)
after_reconcile a update chi false begun =
    let end : List Effect × ChiStatus = mark_reconcile_complete a update begun in
    (clear ∷ drop_replicas ∷ include_stopped chi ++ end.0, end.1)

-- the steps of a reconcile, from its start
unfoldable pub reconcile_planned : Answers → Bool → Installation → List Effect × ChiStatus
reconcile_planned a update chi =
    let begun : ChiStatus = mark_reconcile_start a update chi.status in
    let rest = after_reconcile a update chi a.reconcile_failed begun in
    (written begun ++ exclude_stopped chi ++ (walk_hosts ∷ reconcile ∷ rest.0), rest.1)

-- `update && old.ResourceVersion == new.ResourceVersion`
unfoldable pub is_unchanged : Option Installation → Installation → Bool
is_unchanged none new = false
is_unchanged (some old) new = old.meta.resource_version == new.meta.resource_version

unfoldable pub update_chi : Answers → Option Installation → Installation → List Effect × ChiStatus
update_chi a old new =
    let ensured = ensure_finalizer a new.meta in
    let deleted = delete_chi a new in
    let planned = reconcile_planned a (is_some old) new in
    if a.done_at_update
    then ([], new.status)
    else if is_unchanged old new
    then ([], new.status)
    else if ensured.0
    then (reset_registries ∷ ensured.1, new.status)
    else if deleted.0
    then (reset_registries ∷ ensured.1 ++ deleted.1, deleted.2)
    else if not a.has_actions
    then (reset_registries ∷ ensured.1 ++ deleted.1, new.status)
    else (reset_registries ∷ ensured.1 ++ deleted.1 ++ planned.0, planned.1)
