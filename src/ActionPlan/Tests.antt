-- ===== src/ActionPlan/Tests.antt =====
-- A plan between two versions of an installation, with a stand-in for `DeepDiff` that compares two
-- numbers and reports a modification of the status when they differ.
use radondb_clickhouse_opera.Base.{
  ℕ, inl, inr, String, ◌≡◌, refl, Bool, true, false, Option, none, some, List, [], ◌∷◌, arith,
}
use radondb_clickhouse_opera.Base.Tests.{eqb, if◌then◌else◌, Bool-cases}
use radondb_clickhouse_opera.Base.Lists.{filter}
use radondb_clickhouse_opera.ActionPlan.{
  Item, host_value, Entry, Diff, ClickHouseInstallation, exclude_paths, has_actions_between,
}
use radondb_clickhouse_opera.ActionPlan.Laws.{kept, DistinctAddresses, exclude_paths-kept}
use radondb_clickhouse_opera.ActionPlan.Work.{
  IsDeepDiff, HasDistinctAddresses, changes, has_actions_between-changes,
}

abbrev entry : ℕ → List String → Item → Entry
entry a path item = record { address = a; path = path; item = item }

abbrev no_diff : Diff
no_diff = record { added = []; removed = []; modified = [] }

abbrev modified : Diff
modified = record {
  added = [];
  removed = [];
  modified = entry 1 (".Status" ∷ []) host_value ∷ entry 2 (".Stop" ∷ []) host_value ∷ [];
}

abbrev same_number : Option ℕ → Option ℕ → Bool
same_number none none = true
same_number none (some b) = false
same_number (some a) none = false
same_number (some a) (some b) = eqb a b

abbrev deep_diff : Option ℕ → Option ℕ → Diff × Bool
deep_diff a b = if same_number a b then (no_diff, true) else (modified, false)

abbrev reported : Bool → Diff × Bool
reported same = if same then (no_diff, true) else (modified, false)

distinct : (same : Bool) → DistinctAddresses (reported same).0.modified
distinct true = tt
distinct false = (refl, (refl, tt))

deep_diff-IsDeepDiff : IsDeepDiff deep_diff
deep_diff-IsDeepDiff a b h = elim (Bool-cases (same_number a b)) [
  | inl e ↦ rw e refl
  | inr e ↦ absurd (ground (arith, h, e))
]

deep_diff-HasDistinctAddresses : HasDistinctAddresses deep_diff
deep_diff-HasDistinctAddresses a b = distinct (same_number a b)

abbrev installation : ℕ → ClickHouseInstallation ℕ ℕ ℕ
installation n = record { spec = n; labels = 0; deletion_timestamp = none; finalizers = 0 }

exclude_paths-kept_example :
    exclude_paths (some modified)
    ≡ some record { added = []; removed = []; modified = filter kept modified.modified }
exclude_paths-kept_example = exclude_paths-kept modified (refl, (refl, tt))

has_actions_between-changes_example :
    has_actions_between deep_diff deep_diff deep_diff
      (some (installation 1))
      (some (installation 2))
    ≡ some (changes deep_diff deep_diff deep_diff (some (installation 1)) (some (installation 2)))
has_actions_between-changes_example =
    has_actions_between-changes deep_diff deep_diff deep_diff (some (installation 1))
      (some (installation 2)) deep_diff-IsDeepDiff deep_diff-HasDistinctAddresses
      deep_diff-IsDeepDiff
