-- ===== src/Util/Arrays/Laws.antt =====
-- Merging and removing as operations on sets of texts, and the result of `Unzip`.
use mathlib.Core.List.{append_assoc, append-nil}
use radondb_clickhouse_opera.Base.{
  String, ◌≡◌, refl, ◌∙◌, sym, inl, inr, false, not, ◌||◌, some, List, [], ◌∷◌, ◌++◌, arith, ◌==◌,
  eq_iff,
}
use radondb_clickhouse_opera.Base.Tests.{if◌then◌else◌, Bool-cases}
use radondb_clickhouse_opera.Base.Lists.{length, replicate, filter}
use radondb_clickhouse_opera.Util.Arrays.{
  in_array, merge_string_arrays, remove_loop, remove_from_array, unzip_loop, unzip,
}

in_array-append :
    (k : String) (xs ys : List String) → in_array k (xs ++ ys) ≡ (in_array k xs || in_array k ys)
unfolding in_array
in_array-append k [] ys = refl
in_array-append k (x ∷ xs) ys = ground (arith, in_array-append k xs ys)

-- no text stands twice
abbrev pub NoRepeats : List String → Type 0
NoRepeats [] = Unit
NoRepeats (x ∷ xs) = (in_array x xs ≡ false) × NoRepeats xs

NoRepeats-append :
    (xs : List String) (k : String)
    → NoRepeats xs
    → in_array k xs ≡ false
    → NoRepeats (xs ++ (k ∷ []))
unfolding in_array
NoRepeats-append [] k h f = (refl, tt)
NoRepeats-append (x ∷ xs) k (fresh, u) f = (
  ground (arith, in_array-append x xs (k ∷ []), eq_iff x k, eq_iff k x),
  NoRepeats-append xs k u (ground arith),
)

-- the slice that one round of the merge leaves
abbrev with_text : List String → String → List String
with_text dst str = if in_array str dst then dst else dst ++ (str ∷ [])

in_array-with_text :
    (dst : List String) (s k : String) → in_array k (with_text dst s) ≡ (in_array k dst || s == k)
unfolding in_array
in_array-with_text dst s k = ground (arith, in_array-append k dst (s ∷ []), eq_iff s k)

NoRepeats-with_text : (dst : List String) (s : String) → NoRepeats dst → NoRepeats (with_text dst s)
NoRepeats-with_text dst s h = elim (Bool-cases (in_array s dst)) [
  | inl old ↦ rw old h
  | inr new ↦ rw new (NoRepeats-append dst s h new)
]

in_array-merge :
    (dst src : List String) (k : String)
    → in_array k (merge_string_arrays dst src) ≡ (in_array k dst || in_array k src)
unfolding merge_string_arrays in_array
in_array-merge dst [] k = ground arith
in_array-merge dst (s ∷ src) k =
    in_array-merge (with_text dst s) src k ∙ ground (arith, in_array-with_text dst s k)

NoRepeats-merge : (dst src : List String) → NoRepeats dst → NoRepeats (merge_string_arrays dst src)
unfolding merge_string_arrays
NoRepeats-merge dst [] h = h
NoRepeats-merge dst (s ∷ src) h =
    NoRepeats-merge (with_text dst s) src (NoRepeats-with_text dst s h)

-- A merge of slices holds exactly the texts of both, and repeats none if the first one repeats
-- none.
pub merge_string_arrays-union :
    (dst src : List String)
    → NoRepeats dst
    → ((k : String) → in_array k (merge_string_arrays dst src) ≡ (in_array k dst || in_array k src))
      × NoRepeats (merge_string_arrays dst src)
merge_string_arrays-union dst src h = (in_array-merge dst src, NoRepeats-merge dst src h)

remove_loop-eq-filter :
    (needle : String) (xs result : List String)
    → remove_loop needle xs result ≡ result ++ filter (λ x. not (x == needle)) xs
unfolding remove_loop
remove_loop-eq-filter needle [] result = sym (append-nil result)
remove_loop-eq-filter needle (x ∷ xs) result =
    remove_loop-eq-filter needle xs _ ∙ elim (Bool-cases (x == needle)) [
      | inl e ↦ rw e
      | inr e ↦ rw e (append_assoc result (x ∷ []) _)
    ]

pub remove_from_array-eq-filter :
    (needle : String) (xs : List String)
    → remove_from_array needle xs ≡ filter (λ x. not (x == needle)) xs
unfolding remove_from_array
remove_from_array-eq-filter needle xs = remove_loop-eq-filter needle xs []

-- the first cells, and the second cells of the rows that have one
abbrev pub first_cells : List (List String) → List String
first_cells [] = []
first_cells ([] ∷ rows) = first_cells rows
first_cells ((a ∷ cells) ∷ rows) = a ∷ first_cells rows

abbrev pub second_cells : List (List String) → List String
second_cells [] = []
second_cells ([] ∷ rows) = second_cells rows
second_cells ((a ∷ []) ∷ rows) = second_cells rows
second_cells ((a ∷ b ∷ cells) ∷ rows) = b ∷ second_cells rows

abbrev pub NonEmptyRows : List (List String) → Type 0
NonEmptyRows [] = Unit
NonEmptyRows ([] ∷ rows) = ⊥
NonEmptyRows ((a ∷ cells) ∷ rows) = NonEmptyRows rows

unzip_loop-eq :
    (rows : List (List String)) (c d : List String)
    → NonEmptyRows rows
    → unzip_loop rows c d ≡ some (c ++ first_cells rows, d ++ second_cells rows)
unfolding unzip_loop
unzip_loop-eq [] c d h = rw (append-nil, append-nil)
unzip_loop-eq ([] ∷ rows) c d h = absurd h
unzip_loop-eq ((a ∷ []) ∷ rows) c d h = unzip_loop-eq rows _ d h ∙ rw append_assoc
unzip_loop-eq ((a ∷ b ∷ cells) ∷ rows) c d h =
    unzip_loop-eq rows _ _ h ∙ rw (append_assoc, append_assoc)

-- On rows that are not empty Unzip returns the columns behind as many empty texts as there are
-- rows.
pub unzip-prefix :
    (rows : List (List String))
    → NonEmptyRows rows
    → let blank : List String = replicate (length rows) "" in
      unzip rows ≡ some (blank ++ first_cells rows, blank ++ second_cells rows)
unfolding unzip
unzip-prefix rows h = unzip_loop-eq rows _ _ h
