-- ===== src/Worker/Attributes.antt =====
-- The reconcile attributes of hosts (pkg/apis/clickhouse.radondb.com/v1/types.go) and what the
-- worker does with them (pkg/controller/chi/worker.go): walkHosts marks the hosts that a plan
-- changes, and four decisions read the status of the StatefulSet. Hosts are pointers, here numbers,
-- and their attributes are a store.
pub mod Marks
pub mod Decisions
pub mod Waits
mod Tests
use radondb_clickhouse_opera.Base.{
  ℕ, String, Bool, true, false, ◌&&◌, ◌||◌, List, [], ◌∷◌, ◌++◌, ◌==◌, Option, none, some,
}
use radondb_clickhouse_opera.Base.Tests.{eqb, if◌then◌else◌}

abbrev pub stateful_set_status_modified : String
stateful_set_status_modified = "modified"

abbrev pub stateful_set_status_new : String
stateful_set_status_new = "new"

abbrev pub stateful_set_status_same : String
stateful_set_status_same = "same"

abbrev pub stateful_set_status_unknown : String
stateful_set_status_unknown = "unknown"

pub record ChiHostReconcileAttributes : Type 0 where
  pub status : String
  pub add : Bool
  pub remove : Bool
  pub modify : Bool
  pub unclear : Bool

abbrev pub new_chi_host_reconcile_attributes : ChiHostReconcileAttributes
new_chi_host_reconcile_attributes = record {
  status = "";
  add = false;
  remove = false;
  modify = false;
  unclear = false;
}

-- are two Booleans equal?
abbrev pub same_bool : Bool → Bool → Bool
same_bool true b = b
same_bool false true = false
same_bool false false = true

unfoldable pub equal : Option ChiHostReconcileAttributes → ChiHostReconcileAttributes → Bool
equal none to = false
equal (some s) to =
    same_bool s.add to.add
    && same_bool s.remove to.remove
    && same_bool s.modify to.modify
    && same_bool s.unclear to.unclear

unfoldable pub any : Option ChiHostReconcileAttributes → ChiHostReconcileAttributes → Bool
any none to = false
any (some s) to =
    (s.add && to.add)
    || (s.remove && to.remove)
    || (s.modify && to.modify)
    || (s.unclear && to.unclear)

abbrev pub set_status : String → ChiHostReconcileAttributes → ChiHostReconcileAttributes
set_status v s = record s { status = v }

abbrev pub set_add : ChiHostReconcileAttributes → ChiHostReconcileAttributes
set_add s = record s { add = true }

abbrev pub unset_add : ChiHostReconcileAttributes → ChiHostReconcileAttributes
unset_add s = record s { add = false }

abbrev pub set_remove : ChiHostReconcileAttributes → ChiHostReconcileAttributes
set_remove s = record s { remove = true }

abbrev pub set_modify : ChiHostReconcileAttributes → ChiHostReconcileAttributes
set_modify s = record s { modify = true }

abbrev pub set_unclear : ChiHostReconcileAttributes → ChiHostReconcileAttributes
set_unclear s = record s { unclear = true }

abbrev pub Attributes : Type 0
Attributes = ℕ → ChiHostReconcileAttributes

-- an item of a plan: a cluster or a shard leads to the pointers to its hosts, while a host that
-- the plan holds by value is a copy, which no one reads again
pub data PlanItem : Type 0 where
  a_cluster a_shard : List ℕ → PlanItem
  a_host : ℕ → PlanItem
  a_host_copy another : PlanItem

-- write through a pointer to a host
abbrev pub update_at :
    (ChiHostReconcileAttributes → ChiHostReconcileAttributes) → ℕ → Attributes → Attributes
update_at f host attributes h = if eqb host h then f (attributes h) else attributes h

-- the callback of a walk over hosts
unfoldable pub update_hosts :
    (ChiHostReconcileAttributes → ChiHostReconcileAttributes) → List ℕ → Attributes → Attributes
update_hosts f [] attributes = attributes
update_hosts f (host ∷ hosts) attributes = update_hosts f hosts (update_at f host attributes)

-- the callbacks of WalkAdded
unfoldable pub mark_added : PlanItem → Attributes → Attributes
mark_added (a_cluster hosts) attributes = update_hosts set_add hosts attributes
mark_added (a_shard hosts) attributes = update_hosts set_add hosts attributes
mark_added (a_host host) attributes = update_at set_add host attributes
mark_added a_host_copy attributes = attributes
mark_added another attributes = attributes

-- the callbacks of WalkModified
unfoldable pub mark_modified : PlanItem → Attributes → Attributes
mark_modified (a_host host) attributes = update_at set_modify host attributes
mark_modified (a_cluster hosts) attributes = attributes
mark_modified (a_shard hosts) attributes = attributes
mark_modified a_host_copy attributes = attributes
mark_modified another attributes = attributes

abbrev pub each {ℓ} :
    {I : Type ℓ} → (I → Attributes → Attributes) → List I → Attributes → Attributes
each f [] attributes = attributes
each f (i ∷ items) attributes = each f items (f i attributes)

-- the callback of the walk over the hosts of the installation
unfoldable pub mark_unclear : ChiHostReconcileAttributes → ChiHostReconcileAttributes
mark_unclear s = if s.add then s else if s.modify then s else set_unclear s

-- `walkHosts`, of the added and the modified items of a plan and the hosts of the installation
unfoldable pub walk_hosts : List PlanItem → List PlanItem → List ℕ → Attributes → Attributes
unfolding update_hosts mark_added mark_modified
walk_hosts added modified hosts attributes =
    update_hosts mark_unclear hosts (each mark_modified modified (each mark_added added attributes))
