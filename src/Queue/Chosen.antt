-- ===== src/Queue/Chosen.antt =====
-- The queue that enqueueObject puts an item into, and the item that it puts there, if any.
use radondb_clickhouse_opera.Base.{
  ℕ, zero, suc, ◌+◌, ◌%◌, ◌<◌, ◌≤◌, String, ◌≡◌, refl, sym, ap, subst, ◌∙◌, ◌↔◌, Bool, true, false,
  Option, none, some, List, [], ◌∷◌, ◌++◌, arith, ◌==◌, eq_iff, inl, inr,
}
use radondb_clickhouse_opera.Base.Tests.{if◌then◌else◌, Bool-cases}
use radondb_clickhouse_opera.Base.Lists.{length}
use radondb_clickhouse_opera.Registry.{ObjectMeta}
use radondb_clickhouse_opera.ActionPlan.{has_actions_between}
use radondb_clickhouse_opera.Queue.{
  ReconcileItem, Item, handle, reconcile_chi, reconcile_chit, reconcile_chop_config, drop_dns,
}
use radondb_clickhouse_opera.Queue.Enqueue.{
  remainder, variants_of, behind_system, insert_at, hash_into_int, hash_into_int_topped,
  system_index, queue_index, Plans, installation, copy_update, copy_chi, prepare, insert_prepared,
  enqueue_object,
}

abbrev pub is_system : Item → Bool
is_system (reconcile_chi r) = false
is_system (reconcile_chit r) = true
is_system (reconcile_chop_config r) = true
is_system (drop_dns r) = true

-- the queues before, of and behind a place
abbrev pub Places {ℓ} : {Q : Type ℓ} → List Q → ℕ → Type ℓ
Places {Q = Q} qs i =
    (a : List Q) × (q : Q) × (b : List Q) × (qs ≡ a ++ (q ∷ b))
    × (length a ≡ i)
    × ((f : Q → Q) → insert_at f i qs ≡ some (a ++ (f q ∷ b)))

step_of {ℓ} : {Q : Type ℓ} → Q → Option (List Q) → Option (List Q)
step_of q none = none
step_of q (some rs) = some (q ∷ rs)

insert_at-suc {ℓ} :
    {Q : Type ℓ} (f : Q → Q) (i : ℕ) (q : Q) (qs : List Q)
    → insert_at f (suc i) (q ∷ qs) ≡ step_of q (insert_at f i qs)
unfolding insert_at step_of
insert_at-suc f i q qs = elim (insert_at f i qs) [ none ↦ refl | some rs ↦ refl ]

insert_at-Places {ℓ} : {Q : Type ℓ} (qs : List Q) (i : ℕ) → i < length qs → Places qs i
unfolding insert_at step_of
insert_at-Places [] i h = absurd (omega arith)
insert_at-Places (q ∷ qs) zero h = ([], q, qs, refl, refl, λ f. refl)
insert_at-Places (q ∷ qs) (suc i) h =
    let (a, p, b, e, n, g) = insert_at-Places qs i (omega arith) in
    (q ∷ a, p, b, ap (λ qs. q ∷ qs) e, ap suc n, λ f. insert_at-suc f i q qs ∙ ap (step_of q) (g f))

-- the index is in range, and zero exactly for the system's items
abbrev IsInRange : ℕ → Item → ℕ → Type 0
IsInRange len item i = (i < len) × ((i ≡ 0) ↔ (is_system item ≡ true))

system-IsInRange :
    (fnv : String → ℕ) (len : ℕ) (item : Item)
    → 2 ≤ len
    → is_system item ≡ true
    → (i : ℕ) × (system_index fnv item ≡ some i) × IsInRange len item i
unfolding system_index hash_into_int_topped remainder
system-IsInRange fnv len item h s = (0, grind arith, (omega arith, (λ e. s, λ e. refl)))

queue_index-IsInRange :
    (fnv : String → ℕ) (len : ℕ) (item : Item)
    → 2 ≤ len
    → (i : ℕ) × (queue_index fnv len item ≡ some i) × IsInRange len item i
unfolding queue_index hash_into_int_topped variants_of behind_system remainder
queue_index-IsInRange fnv zero item h = absurd (omega arith)
queue_index-IsInRange fnv (suc zero) item h = absurd (omega arith)
queue_index-IsInRange fnv (suc (suc n)) (reconcile_chi r) h = (
  1 + hash_into_int fnv (handle (reconcile_chi r)) % suc n,
  refl,
  (omega arith, (λ e. absurd (omega (arith, e)), λ e. absurd (ground (arith, e)))),
)
queue_index-IsInRange fnv (suc (suc n)) (reconcile_chit r) h =
    system-IsInRange fnv (suc (suc n)) (reconcile_chit r) h refl
queue_index-IsInRange fnv (suc (suc n)) (reconcile_chop_config r) h =
    system-IsInRange fnv (suc (suc n)) (reconcile_chop_config r) h refl
queue_index-IsInRange fnv (suc (suc n)) (drop_dns r) h =
    system-IsInRange fnv (suc (suc n)) (drop_dns r) h refl

-- An update goes into a queue with copies of both installations, if its plan has work to do. Without
-- a plan the code panics.
abbrev pub arrival_of_update :
    (Option ObjectMeta → ObjectMeta) → ReconcileItem → Option Bool → Option (Option Item)
arrival_of_update copy r none = none
arrival_of_update copy r (some work) = some (
    if work
    then some (reconcile_chi (record r { old = some (copy r.old); new = some (copy r.new) }))
    else none)

-- What goes into a queue for an item, by the answer of its plan: an addition has a copy of the new
-- installation, and all but updates of installations go there in any case.
abbrev pub arrival : (Option ObjectMeta → ObjectMeta) → Item → Option Bool → Option (Option Item)
arrival copy (reconcile_chi r) plan =
    if r.cmd == "update"
    then arrival_of_update copy r plan
    else some
        (some (reconcile_chi (if r.cmd == "add" then record r { new = some (copy r.new) } else r)))
arrival copy (reconcile_chit r) plan = some (some (reconcile_chit r))
arrival copy (reconcile_chop_config r) plan = some (some (reconcile_chop_config r))
arrival copy (drop_dns r) plan = some (some (drop_dns r))

-- the queues with what arrived in one of them
abbrev pub placed {ℓ} :
    {Q : Type ℓ} → (Item → Q → Q) → List Q → Q → List Q → Option (Option Item) → Option (List Q)
placed insert a q b none = none
placed insert a q b (some none) = some (a ++ (q ∷ b))
placed insert a q b (some (some item)) = some (a ++ (insert item q ∷ b))

insert_prepared-Places {ℓ} :
    {Q : Type ℓ} (insert : Item → Q → Q) (o : Option (Option Item)) (i : ℕ) (qs : List Q)
    → (p : Places qs i) → insert_prepared insert (some i) o qs ≡ placed insert p.0 p.1 p.2 o
unfolding insert_prepared
insert_prepared-Places insert none i qs p = refl
insert_prepared-Places insert (some none) i qs (a, q, b, e, n, g) = ap some e
insert_prepared-Places insert (some (some item)) i qs (a, q, b, e, n, g) = g (insert item)

copy_update-arrival :
    (copy : Option ObjectMeta → ObjectMeta) (r : ReconcileItem) (plan : Option Bool)
    → copy_update copy r plan ≡ arrival_of_update copy r plan
unfolding copy_update
copy_update-arrival copy r none = refl
copy_update-arrival copy r (some true) = refl
copy_update-arrival copy r (some false) = refl

module _ {S : Type 0} (plans : Plans S) (copy : Option ObjectMeta → ObjectMeta) where
  -- what the plan of an item answers; only one of an installation has a plan
  abbrev pub plan_answer : Item → Option Bool
  plan_answer (reconcile_chi r) =
      has_actions_between plans.spec_deep_diff plans.labels_deep_diff plans.finalizers_deep_diff
        (installation plans r.old) (installation plans r.new)
  plan_answer (reconcile_chit r) = none
  plan_answer (reconcile_chop_config r) = none
  plan_answer (drop_dns r) = none

  copy_chi-arrival :
      (r : ReconcileItem)
      → copy_chi plans copy r ≡ arrival copy (reconcile_chi r) (plan_answer (reconcile_chi r))
  unfolding copy_chi
  copy_chi-arrival r = elim (Bool-cases (r.cmd == "update")) [
    | inl e ↦
        let other : (r.cmd == "add") ≡ false =
          ap (λ (c : String). c == "add") ((eq_iff r.cmd "update").0 e) in
        simp (other, e) (copy_update-arrival copy r (plan_answer (reconcile_chi r)))
    | inr e ↦ elim (Bool-cases (r.cmd == "add")) [
      | inl d ↦ simp (d, e) refl
      | inr d ↦ simp (d, e) refl
    ]
  ]

  prepare-arrival : (item : Item) → prepare plans copy item ≡ arrival copy item (plan_answer item)
  unfolding prepare
  prepare-arrival (reconcile_chi r) = copy_chi-arrival r
  prepare-arrival (reconcile_chit r) = refl
  prepare-arrival (reconcile_chop_config r) = refl
  prepare-arrival (drop_dns r) = refl

  -- With two queues or more enqueueObject chooses one, which is the first one exactly if the item
  -- is not about an installation, and leaves the others. What it inserts is the item itself, with
  -- a copy of the new installation for an addition. An update of an installation is inserted with
  -- copies of both, if its plan has work to do, and not at all otherwise; if there is no plan, the
  -- code panics.
  pub enqueue_object-placed {ℓ} :
      {Q : Type ℓ} (insert : Item → Q → Q) (fnv : String → ℕ) (item : Item) (queues : List Q)
      → 2 ≤ length queues
      → (a : List Q) × (q : Q) × (b : List Q) × (queues ≡ a ++ (q ∷ b))
        × (enqueue_object insert fnv plans copy item queues
            ≡ placed insert a q b (arrival copy item (plan_answer item)))
        × ((length a ≡ 0) ↔ (is_system item ≡ true))
  unfolding enqueue_object
  enqueue_object-placed insert fnv item queues h =
      let (i, e, (lt, zero_iff)) = queue_index-IsInRange fnv (length queues) item h in
      let p = insert_at-Places queues i lt in
      (
        p.0,
        p.1,
        p.2,
        p.3,
        ap (λ o. insert_prepared insert o (prepare plans copy item) queues) e
            ∙ insert_prepared-Places insert (prepare plans copy item) i queues p
            ∙ ap (placed insert p.0 p.1 p.2) (prepare-arrival item),
        subst (λ n. (n ≡ 0) ↔ (is_system item ≡ true)) (sym p.4) zero_iff,
      )
