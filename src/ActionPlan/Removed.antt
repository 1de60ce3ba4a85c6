-- ===== src/ActionPlan/Removed.antt =====
-- The number of the hosts that a plan removes.
use radondb_clickhouse_opera.Base.{ℕ, ◌+◌, ◌≡◌, ap, ◌∙◌, some, List, [], ◌∷◌, ◌++◌, arith}
use radondb_clickhouse_opera.ActionPlan.{
  Entry, Diff, ActionPlan, item_hosts, walk_removed, get_removed_hosts_num,
}

-- the sum of the hosts of all entries
abbrev pub hosts_of : List Entry → ℕ
hosts_of [] = 0
hosts_of (e ∷ entries) = item_hosts e.item + hosts_of entries

walk_removed-eq : (entries : List Entry) (n : ℕ) → walk_removed entries n ≡ n + hosts_of entries
unfolding walk_removed
walk_removed-eq [] n = omega arith
walk_removed-eq (e ∷ entries) n = omega (arith, walk_removed-eq entries (n + item_hosts e.item))

hosts_of-append : (xs ys : List Entry) → hosts_of (xs ++ ys) ≡ hosts_of xs + hosts_of ys
hosts_of-append [] ys = omega arith
hosts_of-append (x ∷ xs) ys = omega (arith, hosts_of-append xs ys)

-- the plan with these removed entries
abbrev pub removing : ActionPlan → Diff → List Entry → ActionPlan
removing p d entries = record {
  spec_diff = some record { added = d.added; removed = entries; modified = d.modified };
  spec_equal = p.spec_equal;
  labels_diff = p.labels_diff;
  labels_equal = p.labels_equal;
  deletion_timestamp_equal = p.deletion_timestamp_equal;
  finalizers_equal = p.finalizers_equal;
}

-- The number of removed hosts is the sum over the removed clusters, shards and hosts, and an entry
-- counts the same wherever the walk meets it.
pub get_removed_hosts_num-sum :
    (p : ActionPlan) (d : Diff) (xs ys : List Entry) (e : Entry)
    → (get_removed_hosts_num (removing p d (xs ++ e ∷ ys))
        ≡ some (item_hosts e.item + hosts_of (xs ++ ys)))
      × (get_removed_hosts_num (removing p d (xs ++ e ∷ ys))
          ≡ get_removed_hosts_num (removing p d (e ∷ xs ++ ys)))
unfolding get_removed_hosts_num
get_removed_hosts_num-sum p d xs ys e =
    (ap some counted, ap some (counted ∙ omega (arith, walk_removed-eq (e ∷ xs ++ ys) 0)))
  where
    counted : walk_removed (xs ++ e ∷ ys) 0 ≡ item_hosts e.item + hosts_of (xs ++ ys)
    counted = omega (
      arith,
      walk_removed-eq (xs ++ e ∷ ys) 0,
      hosts_of-append xs (e ∷ ys),
      hosts_of-append xs ys,
    )
