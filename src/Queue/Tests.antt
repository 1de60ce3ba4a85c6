-- ===== src/Queue/Tests.antt =====
-- Items and queues on which the theorems about handles and queues are run.
use Prim.Native.String.{count}
use radondb_clickhouse_opera.Base.{
  String, ◌≡◌, refl, ◌↔◌, true, false, Option, none, some, List, [], ◌∷◌, ◌++◌, arith,
}
use radondb_clickhouse_opera.Base.Lists.{length}
use radondb_clickhouse_opera.Registry.{ObjectMeta}
use radondb_clickhouse_opera.ActionPlan.{Diff, other_item}
use radondb_clickhouse_opera.Queue.{
  Item, handle, new_reconcile_chi, reconcile_add, reconcile_update, reconcile_delete,
}
use radondb_clickhouse_opera.Queue.Enqueue.{Plans, enqueue_object}
use radondb_clickhouse_opera.Queue.Chosen.{
  is_system, arrival, placed, plan_answer, enqueue_object-placed,
}
use radondb_clickhouse_opera.Queue.Laws.{handle-eq_iff, subject}

abbrev demo : ObjectMeta
demo = record {
  namespace = "prod";
  name = "demo";
  labels = none;
  annotations = none;
  resource_version = "7";
  finalizers = [];
  deletion_timestamp = none;
}

abbrev added : Item
added = new_reconcile_chi reconcile_add none (some demo)

abbrev deleted : Item
deleted = new_reconcile_chi reconcile_delete (some demo) none

handle-eq_iff_example : (handle added ≡ handle deleted) ↔ (subject added ≡ subject deleted)
unfolding new_reconcile_chi
handle-eq_iff_example = handle-eq_iff added deleted refl refl

abbrev put_item : Item → List Item → List Item
put_item item q = item ∷ q

abbrev updated : Item
updated = new_reconcile_chi reconcile_update (some demo) (some demo)

abbrev copied : Option ObjectMeta → ObjectMeta
copied none = record demo { namespace = ""; name = ""; resource_version = "" }
copied (some m) = m

abbrev queues : List (List Item)
queues = [] ∷ (added ∷ []) ∷ [] ∷ []

-- specs that are resource versions, and a comparison that finds one addition
abbrev no_diff : Diff
no_diff = record { added = []; removed = []; modified = [] }

abbrev changed : Diff
changed = record {
  added = record { address = 1; path = ".Stop" ∷ []; item = other_item } ∷ [];
  removed = [];
  modified = [];
}

abbrev plans : Plans String
plans = record {
  spec = λ m. m.resource_version;
  spec_deep_diff = λ s t. (changed, false);
  labels_deep_diff = λ s t. (no_diff, true);
  finalizers_deep_diff = λ s t. (no_diff, true);
}

enqueue_object-placed_example :
    (a : List (List Item)) × (q : List Item) × (b : List (List Item)) × (queues ≡ a ++ (q ∷ b))
    × (enqueue_object put_item count plans copied updated queues
        ≡ placed put_item a q b (arrival copied updated (plan_answer plans copied updated)))
    × ((length a ≡ 0) ↔ (is_system updated ≡ true))
enqueue_object-placed_example =
    enqueue_object-placed plans copied put_item count updated queues (omega arith)
