-- ===== src/Queue/Enqueue.antt =====
-- initQueues and enqueueObject of pkg/controller/chi/controller.go with the hashes of
-- pkg/util/hash.go: the queue that an item is put into. The hash of a text, the copy of an
-- installation through JSON and a queue's Insert are of other packages, and parameters, like DeepDiff.
-- An installation is given by its metadata, to which a parameter adds its spec. A panic is `none`.
use radondb_clickhouse_opera.Base.{
  ℕ, zero, suc, ◌+◌, ◌%◌, String, Bool, true, false, Option, none, some, List, [], ◌∷◌, ◌==◌,
}
use radondb_clickhouse_opera.Base.Tests.{if◌then◌else◌}
use radondb_clickhouse_opera.Base.Lists.{length}
use radondb_clickhouse_opera.Base.Int.{ℤ, pos, negsuc}
use radondb_clickhouse_opera.Registry.{ObjectMeta}
use radondb_clickhouse_opera.Util.Maps.{StringMap}
use radondb_clickhouse_opera.ActionPlan.{Diff, ClickHouseInstallation, has_actions_between}
use radondb_clickhouse_opera.Queue.{
  ReconcileItem, Item, reconcile_chi, reconcile_chit, reconcile_chop_config, drop_dns,
  reconcile_add, reconcile_update, handle,
}

abbrev pub default_reconcile_system_threads_number : ℕ
default_reconcile_system_threads_number = 1

-- the rounds of the loop that makes the queues
unfoldable pub queues_number : ℤ → ℕ
queues_number (pos n) = n + default_reconcile_system_threads_number
queues_number (negsuc n) = 0

-- Go's remainder of a dividend that is not negative; a divisor of zero panics
unfoldable pub remainder : ℕ → ℤ → Option ℕ
remainder h (pos zero) = none
remainder h (pos (suc n)) = some (h % suc n)
remainder h (negsuc n) = some (h % suc n)

-- the number of queues without that of the system
unfoldable pub variants_of : ℕ → ℤ
variants_of zero = negsuc 0
variants_of (suc n) = pos n

unfoldable pub behind_system : Option ℕ → Option ℕ
behind_system none = none
behind_system (some i) = some (default_reconcile_system_threads_number + i)

unfoldable pub insert_at {ℓ} : {Q : Type ℓ} → (Q → Q) → ℕ → List Q → Option (List Q)
insert_at f i [] = none
insert_at f zero (q ∷ qs) = some (f q ∷ qs)
insert_at f (suc i) (q ∷ qs) = elim (insert_at f i qs) [ none ↦ none | some rs ↦ some (q ∷ rs) ]

module _ (fnv : String → ℕ) where
  unfoldable pub hash_into_int : String → ℕ
  hash_into_int s = if s == "" then 0 else fnv s

  unfoldable pub hash_into_int_topped : String → ℤ → Option ℕ
  hash_into_int_topped s top = remainder (hash_into_int s) top

  unfoldable pub system_index : Item → Option ℕ
  system_index item =
      hash_into_int_topped (handle item) (pos default_reconcile_system_threads_number)

  unfoldable pub queue_index : ℕ → Item → Option ℕ
  unfolding behind_system system_index
  queue_index len (reconcile_chi r) =
      behind_system (hash_into_int_topped (handle (reconcile_chi r)) (variants_of len))
  queue_index len (reconcile_chit r) = system_index (reconcile_chit r)
  queue_index len (reconcile_chop_config r) = system_index (reconcile_chop_config r)
  queue_index len (drop_dns r) = system_index (drop_dns r)

-- the spec of an object, and DeepDiff at the types that a plan compares
pub record Plans (S : Type 0) : Type 0 where
  pub spec : ObjectMeta → S
  pub spec_deep_diff : Option S → Option S → Diff × Bool
  pub labels_deep_diff : Option StringMap → Option StringMap → Diff × Bool
  pub finalizers_deep_diff : Option (List String) → Option (List String) → Diff × Bool

module _ {S : Type 0} (plans : Plans S) where
  abbrev pub installation :
      Option ObjectMeta → Option (ClickHouseInstallation S StringMap (List String))
  installation none = none
  installation (some m) = some record {
    spec = plans.spec m;
    labels = m.labels;
    deletion_timestamp = m.deletion_timestamp;
    finalizers = m.finalizers;
  }

  -- `NewActionPlan(command.old, command.new).HasActionsToDo()`
  abbrev pub plan_has_actions : ReconcileItem → Option Bool
  plan_has_actions r =
      has_actions_between plans.spec_deep_diff plans.labels_deep_diff plans.finalizers_deep_diff
        (installation r.old) (installation r.new)

-- the item of an update whose plan has actions or not
unfoldable pub copy_update :
    (Option ObjectMeta → ObjectMeta) → ReconcileItem → Option Bool → Option (Option Item)
copy_update copy r none = none
copy_update copy r (some false) = some none
copy_update copy r (some true) =
    some (some (reconcile_chi (record r { old = some (copy r.old); new = some (copy r.new) })))

module _ {S : Type 0} (plans : Plans S) (copy : Option ObjectMeta → ObjectMeta) where
  unfoldable pub copy_chi : ReconcileItem → Option (Option Item)
  unfolding copy_update
  copy_chi r =
      if r.cmd == reconcile_add
      then some (some (reconcile_chi (record r { new = some (copy r.new) })))
      else if r.cmd == reconcile_update
      then copy_update copy r (plan_has_actions plans r)
      else some (some (reconcile_chi r))

  -- the item as it is put into the queue, if it is
  unfoldable pub prepare : Item → Option (Option Item)
  unfolding copy_chi
  prepare (reconcile_chi r) = copy_chi r
  prepare (reconcile_chit r) = some (some (reconcile_chit r))
  prepare (reconcile_chop_config r) = some (some (reconcile_chop_config r))
  prepare (drop_dns r) = some (some (drop_dns r))

module _ {ℓ} {Q : Type ℓ} (insert : Item → Q → Q) where
  unfoldable pub insert_prepared : Option ℕ → Option (Option Item) → List Q → Option (List Q)
  unfolding insert_at
  insert_prepared none item queues = none
  insert_prepared (some i) none queues = none
  insert_prepared (some i) (some none) queues = some queues
  insert_prepared (some i) (some (some item)) queues = insert_at (insert item) i queues

  module _ {S : Type 0} (fnv : String → ℕ) (plans : Plans S)
      (copy : Option ObjectMeta → ObjectMeta) where
    unfoldable pub enqueue_object : Item → List Q → Option (List Q)
    enqueue_object item queues =
        insert_prepared (queue_index fnv (length queues) item) (prepare plans copy item) queues
