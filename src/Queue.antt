-- ===== src/Queue.antt =====
-- pkg/controller/chi/type_cmd_queue.go: the items of the controller's work queues, their priorities,
-- and the handles under which a queue keeps one item at most. An object is given by its metadata;
-- the queue itself is a package of others.
pub mod Laws
pub mod Enqueue
pub mod Chosen
mod Tests
use radondb_clickhouse_opera.Base.{ℕ, String, ◌<>◌, Option, none, some}
use radondb_clickhouse_opera.Registry.{ObjectMeta}

abbrev pub reconcile_add : String
reconcile_add = "add"

abbrev pub reconcile_update : String
reconcile_update = "update"

abbrev pub reconcile_delete : String
reconcile_delete = "delete"

-- the embedded PriorityQueueItem is the field of the priority
pub record ReconcileItem : Type 0 where
  pub priority : ℕ
  pub cmd : String
  pub old : Option ObjectMeta
  pub new : Option ObjectMeta

pub record DropDns : Type 0 where
  pub priority : ℕ
  pub initiator : Option ObjectMeta

-- the types that implement the interface of an item
pub data Item : Type 0 where
  reconcile_chi reconcile_chit reconcile_chop_config : ReconcileItem → Item
  drop_dns : DropDns → Item

abbrev pub priority_reconcile_chi : ℕ
priority_reconcile_chi = 10

abbrev pub priority_reconcile_chit : ℕ
priority_reconcile_chit = 5

abbrev pub priority_reconcile_chop_config : ℕ
priority_reconcile_chop_config = 3

abbrev pub priority_drop_dns : ℕ
priority_drop_dns = 7

unfoldable pub priority_of : Item → ℕ
priority_of (reconcile_chi r) = r.priority
priority_of (reconcile_chit r) = r.priority
priority_of (reconcile_chop_config r) = r.priority
priority_of (drop_dns r) = r.priority

abbrev pub new_reconcile : ℕ → String → Option ObjectMeta → Option ObjectMeta → ReconcileItem
new_reconcile priority cmd old new = record { priority = priority; cmd = cmd; old = old; new = new }

unfoldable pub new_reconcile_chi : String → Option ObjectMeta → Option ObjectMeta → Item
new_reconcile_chi cmd old new = reconcile_chi (new_reconcile priority_reconcile_chi cmd old new)

unfoldable pub new_reconcile_chit : String → Option ObjectMeta → Option ObjectMeta → Item
new_reconcile_chit cmd old new = reconcile_chit (new_reconcile priority_reconcile_chit cmd old new)

unfoldable pub new_reconcile_chop_config : String → Option ObjectMeta → Option ObjectMeta → Item
new_reconcile_chop_config cmd old new =
    reconcile_chop_config (new_reconcile priority_reconcile_chop_config cmd old new)

unfoldable pub new_drop_dns : Option ObjectMeta → Item
new_drop_dns initiator = drop_dns (record { priority = priority_drop_dns; initiator = initiator })

-- the text of a kind and an object
unfoldable pub handle_text : String → ObjectMeta → String
handle_text kind m = kind <> (":" <> (m.namespace <> ("/" <> m.name)))

-- the new object is looked at first, then the old one
unfoldable pub handle_of : String → Option ObjectMeta → Option ObjectMeta → String
handle_of kind old (some m) = handle_text kind m
handle_of kind (some m) none = handle_text kind m
handle_of kind none none = ""

unfoldable pub handle : Item → String
handle (reconcile_chi r) = handle_of "ReconcileCHI" r.old r.new
handle (reconcile_chit r) = handle_of "ReconcileCHIT" r.old r.new
handle (reconcile_chop_config r) = handle_of "ReconcileChopConfig" r.old r.new
handle (drop_dns r) = handle_of "DropDNS" none r.initiator
