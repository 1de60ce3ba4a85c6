-- ===== src/Worker/Update/Steps.antt =====
-- The steps of updateCHI that reconcile, clean up and write the status, and those that do not.
use radondb_clickhouse_opera.Base.{
  ◌≡◌, refl, ◌∙◌, String, Bool, true, false, not, inl, inr, ◌||◌, ◌&&◌, List, [], ◌∷◌, ◌++◌, arith,
}
use radondb_clickhouse_opera.Base.Tests.{if◌then◌else◌, Bool-cases, is_some}
use radondb_clickhouse_opera.Base.Lists.{contains}
use radondb_clickhouse_opera.Registry.{ObjectMeta}
use radondb_clickhouse_opera.Status.{
  ChiStatus, delete_start, push_task_id_started, status_terminating, status_running,
  status_create_failed, status_update_failed, reconcile_complete, running, reconcile_create_failed,
  reconcile_update_failed,
}
use radondb_clickhouse_opera.Worker.Update.{
  Installation, Answers, Effect, write_status, exclude_from_monitoring, walk_hosts, reconcile,
  clear, include_in_monitoring, ensure_finalizer, delete_chi, delete_chi_protocol, finalizer_name,
  is_stopped, exclude_stopped, include_stopped, mark_reconcile_start, mark_failed,
  mark_reconcile_complete, after_reconcile, reconcile_planned,
}

abbrev pub is_reconcile : Effect → Bool
is_reconcile reconcile = true
is_reconcile e = false

abbrev pub is_clear : Effect → Bool
is_clear clear = true
is_clear e = false

-- is one of the effects of this kind?
abbrev pub any_effect : (Effect → Bool) → List Effect → Bool
any_effect p [] = false
any_effect p (e ∷ es) = p e || any_effect p es

pub any-append :
    (p : Effect → Bool) (xs ys : List Effect)
    → any_effect p (xs ++ ys) ≡ (any_effect p xs || any_effect p ys)
any-append p [] ys = refl
any-append p (x ∷ xs) ys = ground (arith, any-append p xs ys)

abbrev pub failed_status : Bool → String
failed_status update = if update then status_update_failed else status_create_failed

-- the status that a reconcile leaves
abbrev pub final_status : Answers → Bool → String
final_status a update =
    if a.reconcile_failed || a.ping_failed then failed_status update else status_running

status-mark_failed :
    (update : Bool) (s : ChiStatus) → (mark_failed update s).status ≡ failed_status update
unfolding mark_failed reconcile_create_failed reconcile_update_failed
status-mark_failed true s = refl
status-mark_failed false s = refl

complete_status :
    (a : Answers) (update : Bool) (s : ChiStatus)
    → (mark_reconcile_complete a update s).1.status
      ≡ (if a.ping_failed then failed_status update else status_running)
unfolding mark_reconcile_complete running
complete_status a update s = elim (Bool-cases a.ping_failed) [
  | inl e ↦ rw e (status-mark_failed update _)
  | inr e ↦ rw e refl
]

module _ (p : Effect → Bool) where
  -- the status and the monitoring are not among the effects that are looked for
  abbrev IsApart : Type 0
  IsApart =
      ((s : String) → p (write_status s) ≡ false)
      × (p exclude_from_monitoring ≡ false)
      × (p include_in_monitoring ≡ false)

  any-exclude : (chi : Installation) → IsApart → any_effect p (exclude_stopped chi) ≡ false
  unfolding exclude_stopped
  any-exclude chi (a, b, c) = elim (Bool-cases (is_stopped chi)) [
    | inl e ↦ rw e (ground (arith, b))
    | inr e ↦ rw e refl
  ]

  any-include : (chi : Installation) → IsApart → any_effect p (include_stopped chi) ≡ false
  unfolding include_stopped
  any-include chi (a, b, c) = elim (Bool-cases (is_stopped chi)) [
    | inl e ↦ rw e refl
    | inr e ↦ rw e (ground (arith, c))
  ]

  any_complete :
      (answers : Answers) (update : Bool) (s : ChiStatus)
      → IsApart
      → any_effect p (mark_reconcile_complete answers update s).0 ≡ false
  unfolding mark_reconcile_complete
  any_complete answers update s (a, b, c) = elim (Bool-cases answers.ping_failed) [
    | inl e ↦ simp e (
        ground (
          arith,
          a (reconcile_complete s).status,
          a (mark_failed update (reconcile_complete s)).status,
        ))
    | inr e ↦
        simp e (
          ground
            (arith, a (reconcile_complete s).status, a (running (reconcile_complete s)).status))
  ]

after_status :
    (a : Answers) (update : Bool) (chi : Installation) (failed : Bool) (s : ChiStatus)
    → (after_reconcile a update chi failed s).1.status
      ≡ (if failed || a.ping_failed then failed_status update else status_running)
unfolding after_reconcile
after_status a update chi true s = status-mark_failed update s
after_status a update chi false s = complete_status a update s

-- after the reconcile of the items nothing is reconciled, and the cleanup comes if it did not fail
after_effects :
    (a : Answers) (update : Bool) (chi : Installation) (failed : Bool) (s : ChiStatus)
    → (any_effect is_reconcile (after_reconcile a update chi failed s).0 ≡ false)
      × (any_effect is_clear (after_reconcile a update chi failed s).0 ≡ not failed)
unfolding after_reconcile
after_effects a update chi true s = (refl, refl)
after_effects a update chi false s = (
  any-append is_reconcile (include_stopped chi) (mark_reconcile_complete a update s).0
      ∙ ground (
        arith,
        any-include is_reconcile chi ((λ t. refl), refl, refl),
        any_complete is_reconcile a update s ((λ t. refl), refl, refl),
      ),
  refl,
)

-- The items are reconciled, the cleanup follows if that did not fail, and the status is the final
-- one.
pub planned-outcome :
    (a : Answers) (update : Bool) (chi : Installation)
    → (any_effect is_reconcile (reconcile_planned a update chi).0 ≡ true)
      × (any_effect is_clear (reconcile_planned a update chi).0 ≡ not a.reconcile_failed)
      × ((reconcile_planned a update chi).1.status ≡ final_status a update)
unfolding reconcile_planned
planned-outcome a update chi =
    let begun : ChiStatus = mark_reconcile_start a update chi.status in
    let rest : List Effect × ChiStatus = after_reconcile a update chi a.reconcile_failed begun in
    let (x, y) = after_effects a update chi a.reconcile_failed begun in
    (
      any-append is_reconcile (exclude_stopped chi) (walk_hosts ∷ reconcile ∷ rest.0)
          ∙ ground (arith, any-exclude is_reconcile chi ((λ t. refl), refl, refl)),
      any-append is_clear (exclude_stopped chi) (walk_hosts ∷ reconcile ∷ rest.0)
          ∙ ground (arith, any-exclude is_clear chi ((λ t. refl), refl, refl), y),
      after_status a update chi a.reconcile_failed begun,
    )

-- nothing is reconciled or cleaned up by the steps on the finalizer
pub quiet_finalizer :
    (a : Answers) (meta : ObjectMeta)
    → (any_effect is_reconcile (ensure_finalizer a meta).1 ≡ false)
      × (any_effect is_clear (ensure_finalizer a meta).1 ≡ false)
unfolding ensure_finalizer
quiet_finalizer a meta = ground arith

pub quiet_deletion :
    (a : Answers) (chi : Installation)
    → (any_effect is_reconcile (delete_chi a chi).1 ≡ false)
      × (any_effect is_clear (delete_chi a chi).1 ≡ false)
unfolding delete_chi delete_chi_protocol
quiet_deletion a chi = ground arith

-- Does the deletion of the installation begin, when deleteCHI is called?
abbrev pub begins_deletion : Answers → Installation → Bool
begins_deletion a chi =
    is_some chi.meta.deletion_timestamp
    && (contains chi.meta.finalizers finalizer_name
        && (a.installation_found
            && not
                (a.done_at_delete || (a.get_failed || (a.done_at_protocol || a.normalize_failed)))))

terminating : (s : ChiStatus) → (delete_start s).status ≡ status_terminating
unfolding delete_start push_task_id_started
terminating s = refl

protocol_status :
    (a : Answers) (s : ChiStatus)
    → (delete_chi_protocol a s).1.status
      ≡ (if a.done_at_protocol || a.normalize_failed then s.status else status_terminating)
unfolding delete_chi_protocol
protocol_status a s = ground (arith, terminating s)

pub deletion_status :
    (a : Answers) (chi : Installation)
    → (delete_chi a chi).2.status
      ≡ (if begins_deletion a chi then status_terminating else chi.status.status)
unfolding delete_chi
deletion_status a chi = ground (arith, protocol_status a chi.status)

-- the deletion begins only in a call that says so, and not in a run that installs the finalizer
pub deletion_begun :
    (a : Answers) (chi : Installation)
    → ((delete_chi a chi).0 ≡ false → begins_deletion a chi ≡ false)
      × ((ensure_finalizer a chi.meta).0 ≡ true → begins_deletion a chi ≡ false)
unfolding delete_chi ensure_finalizer
deletion_begun a chi = (λ h. ground arith, λ h. ground arith)
