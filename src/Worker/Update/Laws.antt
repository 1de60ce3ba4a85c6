-- ===== src/Worker/Update/Laws.antt =====
-- What a run of updateCHI does and leaves.
use radondb_clickhouse_opera.Base.{◌≡◌, Bool, not, ◌&&◌, ◌||◌, String, Option, List, ◌++◌}
use radondb_clickhouse_opera.Base.Tests.{if◌then◌else◌, is_some}
use radondb_clickhouse_opera.Status.{ChiStatus, status_terminating}
use radondb_clickhouse_opera.Worker.Update.{
  Installation, Answers, Effect, ensure_finalizer, delete_chi, reconcile_planned, is_unchanged,
}
use radondb_clickhouse_opera.Worker.Update.Steps.{
  is_reconcile, is_clear, any_effect, final_status, begins_deletion,
}

-- Does a run come to the deletion of the installation?
abbrev pub deletes : Answers → Option Installation → Installation → Bool
deletes a old new = not (a.done_at_update || is_unchanged old new) && begins_deletion a new

-- the status that a run leaves
abbrev pub status_after : Answers → Option Installation → Installation → Bool → String
status_after a old new reconciled =
    if reconciled
    then final_status a (is_some old)
    else if deletes a old new
    then status_terminating
    else new.status.status

-- What a run did and left: the cleanup exactly after a reconcile that did not fail, and the status.
abbrev pub IsRun : Answers → Option Installation → Installation → List Effect × ChiStatus → Type 0
IsRun a old new r =
    (any_effect is_clear r.0 ≡ (any_effect is_reconcile r.0 && not a.reconcile_failed))
    × (r.1.status ≡ status_after a old new (any_effect is_reconcile r.0))

module _ (a : Answers) (old : Option Installation) (new : Installation) where
  abbrev prepared : List Effect
  prepared = (ensure_finalizer a new.meta).1 ++ (delete_chi a new).1

  abbrev planned : List Effect × ChiStatus
  planned = reconcile_planned a (is_some old) new
