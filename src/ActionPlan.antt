-- ===== src/ActionPlan.antt =====
-- pkg/model/action_plan.go: the differences between two installations, and whether they call for
-- work. `DeepDiff` of the messagediff library is a parameter, one function for each type that it is
-- called with; a nil argument of it is `none`.
pub mod Laws
pub mod Work
pub mod Removed
mod Tests
use radondb_clickhouse_opera.Base.{
  ℕ, zero, suc, ◌+◌, String, ◌≡◌, Bool, true, false, not, ◌&&◌, ◌||◌, Option, none, some, List, [],
  ◌∷◌, ◌==◌,
}
use radondb_clickhouse_opera.Base.Tests.{ltb, eqb, if◌then◌else◌, is_some}
use radondb_clickhouse_opera.Base.Lists.{length}

-- what a difference can hold: a cluster has a list of shards, with their numbers of hosts
pub data Item : Type 0 where
  cluster_value cluster_pointer : List ℕ → Item
  shard_value shard_pointer : ℕ → Item
  host_value host_pointer other_item : Item

-- an entry of a `map[*Path]interface{}`: the address of the path, its nodes as texts, and the item
pub record Entry : Type 0 where
  pub address : ℕ
  pub path : List String
  pub item : Item

-- `messagediff.Diff`
pub record Diff : Type 0 where
  pub added : List Entry
  pub removed : List Entry
  pub modified : List Entry

pub record ActionPlan : Type 0 where
  pub spec_diff : Option Diff
  pub spec_equal : Bool
  pub labels_diff : Option Diff
  pub labels_equal : Bool
  pub deletion_timestamp_equal : Bool
  pub finalizers_equal : Bool

unfoldable pub timestamp_equal : Option ℕ → Option ℕ → Bool
timestamp_equal none none = true
timestamp_equal none (some t) = false
timestamp_equal (some t) none = false
timestamp_equal (some s) (some t) = eqb s t

unfoldable pub is_excluded_path : String → String → Bool
is_excluded_path prev cur =
    if prev == "ObjectMeta" && cur == ".ResourceVersion"
      || prev == ".ObjectMeta" && cur == ".ResourceVersion"
    then true
    else prev == "Status" && cur == "Status" || prev == ".Status" && cur == ".Status"

-- the inner loop behind a first node
excluded_after : String → List String → Bool
excluded_after prev [] = false
excluded_after prev (node ∷ path) =
    let rest = excluded_after node path in if is_excluded_path prev node then true else rest

-- the first node is its own predecessor
unfoldable pub is_excluded : List String → Bool
unfolding excluded_after
is_excluded [] = false
is_excluded (node ∷ path) = if is_excluded_path node node then true else excluded_after node path

-- the addresses of the paths to exclude
excluded_addresses : List Entry → List ℕ
excluded_addresses [] = []
excluded_addresses (e ∷ entries) =
    let rest = excluded_addresses entries in if is_excluded e.path then e.address ∷ rest else rest

-- `delete(modified, address)`
delete_address : ℕ → List Entry → List Entry
delete_address a [] = []
delete_address a (e ∷ entries) =
    let rest = delete_address a entries in if eqb e.address a then rest else e ∷ rest

delete_addresses : List ℕ → List Entry → List Entry
unfolding delete_address
delete_addresses [] entries = entries
delete_addresses (a ∷ rest) entries = delete_addresses rest (delete_address a entries)

unfoldable pub exclude_paths : Option Diff → Option Diff
unfolding excluded_addresses delete_addresses
exclude_paths none = none
exclude_paths (some d) = some record {
  added = d.added;
  removed = d.removed;
  modified = delete_addresses (excluded_addresses d.modified) d.modified;
}

unfoldable pub has_entries : Option Diff → Bool
has_entries none = false
has_entries (some d) = ltb 0 (length d.added + length d.removed + length d.modified)

abbrev is_nil : Option Diff → Bool
is_nil none = true
is_nil (some d) = false

unfoldable pub has_actions_to_do : ActionPlan → Bool
has_actions_to_do ap =
    if ap.spec_equal && ap.labels_equal && ap.deletion_timestamp_equal && ap.finalizers_equal
    then false
    else if is_nil ap.spec_diff && is_nil ap.labels_diff
    then not ap.deletion_timestamp_equal || not ap.finalizers_equal
    else if has_entries ap.spec_diff
    then true
    else if has_entries ap.labels_diff
    then true
    else not ap.deletion_timestamp_equal || not ap.finalizers_equal

-- the fields of an installation that a plan reads
pub record ClickHouseInstallation (S L F : Type 0) : Type 0 where
  pub spec : S
  pub labels : L
  pub deletion_timestamp : Option ℕ
  pub finalizers : F

module _ {S L F : Type 0} where
  module _ (spec_deep_diff : Option S → Option S → Diff × Bool)
      (labels_deep_diff : Option L → Option L → Diff × Bool)
      (finalizers_deep_diff : Option F → Option F → Diff × Bool) where
    plan_of :
        Option S
        → Option S
        → Option L
        → Option L
        → Option ℕ
        → Option ℕ
        → Option F
        → Option F
        → ActionPlan
    plan_of s s' l l' t t' f f' = record {
      spec_diff = exclude_paths (some (spec_deep_diff s s').0);
      spec_equal = (spec_deep_diff s s').1;
      labels_diff = some (labels_deep_diff l l').0;
      labels_equal = (labels_deep_diff l l').1;
      deletion_timestamp_equal = timestamp_equal t t';
      finalizers_equal = (finalizers_deep_diff f f').1;
    }

    -- the first branch, with both installations
    plan_of_both :
        Option (ClickHouseInstallation S L F)
        → Option (ClickHouseInstallation S L F)
        → Option ActionPlan
    unfolding plan_of
    plan_of_both none new = none
    plan_of_both (some o) none = none
    plan_of_both (some o) (some n) = some (
        plan_of (some o.spec) (some n.spec) (some o.labels) (some n.labels) o.deletion_timestamp
          n.deletion_timestamp (some o.finalizers) (some n.finalizers))

    -- the branch `old == nil`, which reads `ap.new.Spec`, and panics if new is nil
    plan_of_new : Option (ClickHouseInstallation S L F) → Option ActionPlan
    unfolding plan_of
    plan_of_new none = none
    plan_of_new (some n) = some (
        plan_of none (some n.spec) none (some n.labels) none n.deletion_timestamp none
          (some n.finalizers))

    -- the branch `new == nil`, which reads `ap.old.Spec`
    plan_of_old : Option (ClickHouseInstallation S L F) → Option ActionPlan
    unfolding plan_of
    plan_of_old none = none
    plan_of_old (some o) = some (
        plan_of (some o.spec) none (some o.labels) none o.deletion_timestamp none
          (some o.finalizers) none)

    -- the last branch, for two nil installations
    plan_of_none : ActionPlan
    plan_of_none = record {
      spec_diff = exclude_paths none;
      spec_equal = true;
      labels_diff = none;
      labels_equal = true;
      deletion_timestamp_equal = true;
      finalizers_equal = true;
    }

    -- the branches in their order; `none` is the panic on a nil pointer
    unfoldable pub new_action_plan :
        Option (ClickHouseInstallation S L F)
        → Option (ClickHouseInstallation S L F)
        → Option ActionPlan
    unfolding plan_of_both plan_of_new plan_of_old plan_of_none
    new_action_plan old new =
        if is_some old && is_some new
        then plan_of_both old new
        else if not (is_some old)
        then plan_of_new new
        else if not (is_some new)
        then plan_of_old old
        else some plan_of_none

    actions_of : Option ActionPlan → Option Bool
    actions_of none = none
    actions_of (some p) = some (has_actions_to_do p)

    -- `NewActionPlan(old, new).HasActionsToDo()`, as updateCHI and enqueueObject call it
    unfoldable pub has_actions_between :
        Option (ClickHouseInstallation S L F) → Option (ClickHouseInstallation S L F) → Option Bool
    unfolding actions_of
    has_actions_between old new = actions_of (new_action_plan old new)

-- `cluster.HostsCount()`
cluster_hosts_count : List ℕ → ℕ
cluster_hosts_count [] = 0
cluster_hosts_count (hosts ∷ shards) = hosts + cluster_hosts_count shards

-- what the callbacks of `GetRemovedHostsNum` add for an item
unfoldable pub item_hosts : Item → ℕ
unfolding cluster_hosts_count
item_hosts (cluster_value shards) = cluster_hosts_count shards
item_hosts (cluster_pointer shards) = cluster_hosts_count shards
item_hosts (shard_value hosts) = hosts
item_hosts (shard_pointer hosts) = hosts
item_hosts host_value = 1
item_hosts host_pointer = 1
item_hosts other_item = 0

-- the walk over the removed entries, with the count so far
walk_removed : List Entry → ℕ → ℕ
walk_removed [] count = count
walk_removed (e ∷ entries) count = walk_removed entries (count + item_hosts e.item)

-- `none` is the panic on a nil difference
unfoldable pub get_removed_hosts_num : ActionPlan → Option ℕ
unfolding walk_removed
get_removed_hosts_num ap = elim ap.spec_diff [
  | none ↦ none
  | some d ↦ some (walk_removed d.removed 0)
]
