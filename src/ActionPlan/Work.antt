-- ===== src/ActionPlan/Work.antt =====
-- When a plan has work to do.
use radondb_clickhouse_opera.Base.{
  ℕ, ◌≡◌, refl, ap, ◌∙◌, Bool, true, false, not, ◌||◌, Option, none, some, List, [], ◌∷◌, arith,
}
use radondb_clickhouse_opera.Base.Tests.{ltb, eqb, if◌then◌else◌, is_some}
use radondb_clickhouse_opera.Base.Lists.{length, filter}
use radondb_clickhouse_opera.ActionPlan.{
  Diff, timestamp_equal, exclude_paths, has_entries, has_actions_to_do, ClickHouseInstallation,
  plan_of, plan_of_both, plan_of_new, plan_of_old, new_action_plan, actions_of, has_actions_between,
}
use radondb_clickhouse_opera.ActionPlan.Laws.{kept, DistinctAddresses, exclude_paths-kept}

abbrev is_filled {ℓ} : {A : Type ℓ} → List A → Bool
is_filled [] = false
is_filled (x ∷ xs) = true

-- does a difference list anything?
abbrev pub lists_entries : Diff → Bool
lists_entries d = is_filled d.added || (is_filled d.removed || is_filled d.modified)

-- does it list anything besides the modifications that are ignored?
abbrev pub counts : Diff → Bool
counts d = is_filled d.added || (is_filled d.removed || is_filled (filter kept d.modified))

abbrev pub is_other_time : Option ℕ → Option ℕ → Bool
is_other_time none none = false
is_other_time none (some t) = true
is_other_time (some s) none = true
is_other_time (some s) (some t) = not (eqb s t)

-- "equal" goes with an empty difference
abbrev pub IsDeepDiff : {A : Type 0} → (Option A → Option A → Diff × Bool) → Type 0
IsDeepDiff {A} f = (a b : Option A) → (f a b).1 ≡ true → lists_entries (f a b).0 ≡ false

-- the modifications of a difference are a map by addresses
abbrev pub HasDistinctAddresses : {A : Type 0} → (Option A → Option A → Diff × Bool) → Type 0
HasDistinctAddresses {A} f = (a b : Option A) → DistinctAddresses (f a b).0.modified

length-filled {ℓ} : {A : Type ℓ} (xs : List A) → ltb 0 (length xs) ≡ is_filled xs
length-filled [] = refl
length-filled (x ∷ xs) = ground arith

has_entries-lists : (d : Diff) → has_entries (some d) ≡ lists_entries d
unfolding has_entries
has_entries-lists d =
    ground (arith, length-filled d.added, length-filled d.removed, length-filled d.modified)

has_entries-excluded :
    (d : Diff) → DistinctAddresses d.modified → has_entries (exclude_paths (some d)) ≡ counts d
has_entries-excluded d h =
    ap has_entries (exclude_paths-kept d h)
    ∙ has_entries-lists
        (record { added = d.added; removed = d.removed; modified = filter kept d.modified })

timestamp_other : (s t : Option ℕ) → not (timestamp_equal s t) ≡ is_other_time s t
unfolding timestamp_equal
timestamp_other none none = refl
timestamp_other none (some t) = refl
timestamp_other (some s) none = refl
timestamp_other (some s) (some t) = refl

filter-empty {ℓ} :
    {A : Type ℓ} (p : A → Bool) (xs : List A)
    → is_filled xs ≡ false
    → is_filled (filter p xs) ≡ false
filter-empty p [] h = refl
filter-empty p (x ∷ xs) h = cc

counts-empty : (d : Diff) → lists_entries d ≡ false → counts d ≡ false
counts-empty d h = ground (arith, filter-empty kept d.modified)

module _ {S L F : Type 0} (spec_deep_diff : Option S → Option S → Diff × Bool)
    (labels_deep_diff : Option L → Option L → Diff × Bool)
    (finalizers_deep_diff : Option F → Option F → Diff × Bool) where
  -- The parts of two installations differ: the specs but for ignored paths, the labels, the deletion
  -- timestamps or the finalizers.
  part_changes :
      Option S → Option S → Option L → Option L → Option ℕ → Option ℕ → Option F → Option F → Bool
  part_changes s s' l l' t t' f f' =
      counts (spec_deep_diff s s').0
      || (lists_entries (labels_deep_diff l l').0
          || (is_other_time t t' || not (finalizers_deep_diff f f').1))

  by_parts :
      (s s' : Option S) (l l' : Option L) (t t' : Option ℕ) (f f' : Option F)
      → IsDeepDiff spec_deep_diff
      → HasDistinctAddresses spec_deep_diff
      → IsDeepDiff labels_deep_diff
      → has_actions_to_do
          (plan_of spec_deep_diff labels_deep_diff finalizers_deep_diff s s' l l' t t' f f')
        ≡ part_changes s s' l l' t t' f f'
  unfolding has_actions_to_do plan_of part_changes exclude_paths
  by_parts s s' l l' t t' f f' hs hd hl = ground (
    arith,
    hs s s',
    hl l l',
    has_entries-excluded (spec_deep_diff s s').0 (hd s s'),
    has_entries-lists (labels_deep_diff l l').0,
    counts-empty (spec_deep_diff s s').0,
    timestamp_other t t',
  )

  abbrev pub spec_of : Option (ClickHouseInstallation S L F) → Option S
  spec_of none = none
  spec_of (some i) = some i.spec

  abbrev pub labels_of : Option (ClickHouseInstallation S L F) → Option L
  labels_of none = none
  labels_of (some i) = some i.labels

  abbrev pub timestamp_of : Option (ClickHouseInstallation S L F) → Option ℕ
  timestamp_of none = none
  timestamp_of (some i) = i.deletion_timestamp

  abbrev pub finalizers_of : Option (ClickHouseInstallation S L F) → Option F
  finalizers_of none = none
  finalizers_of (some i) = some i.finalizers

  abbrev pub changes :
      Option (ClickHouseInstallation S L F) → Option (ClickHouseInstallation S L F) → Bool
  changes old new =
      counts (spec_deep_diff (spec_of old) (spec_of new)).0
      || (lists_entries (labels_deep_diff (labels_of old) (labels_of new)).0
          || (is_other_time (timestamp_of old) (timestamp_of new)
              || not (finalizers_deep_diff (finalizers_of old) (finalizers_of new)).1))

  -- When DeepDiff lists nothing for equal values, and every modification once, a plan between two
  -- installations, of which one may be nil, has work to do exactly when DeepDiff lists something
  -- for the specs besides modifications at ignored paths, or something for the labels, or the
  -- deletion timestamps differ, or the finalizers do. Between two nil installations the code
  -- panics.
  pub has_actions_between-changes :
      (old new : Option (ClickHouseInstallation S L F))
      → IsDeepDiff spec_deep_diff
      → HasDistinctAddresses spec_deep_diff
      → IsDeepDiff labels_deep_diff
      → has_actions_between spec_deep_diff labels_deep_diff finalizers_deep_diff old new
        ≡ (if is_some old || is_some new then some (changes old new) else none)
  unfolding has_actions_between new_action_plan plan_of_both plan_of_new plan_of_old actions_of
      part_changes
  has_actions_between-changes none none hs hd hl = refl
  has_actions_between-changes none (some n) hs hd hl = ap some (
      by_parts none (some n.spec) none (some n.labels) none n.deletion_timestamp none
        (some n.finalizers) hs hd hl)
  has_actions_between-changes (some o) none hs hd hl = ap some (
      by_parts (some o.spec) none (some o.labels) none o.deletion_timestamp none (some o.finalizers)
        none hs hd hl)
  has_actions_between-changes (some o) (some n) hs hd hl = ap some (
      by_parts (some o.spec) (some n.spec) (some o.labels) (some n.labels) o.deletion_timestamp
        n.deletion_timestamp (some o.finalizers) (some n.finalizers) hs hd hl)
