-- ===== src/ActionPlan/Laws.antt =====
-- The exclusion of differences at ignored paths.
use radondb_clickhouse_opera.Base.{
  ℕ, String, ◌≡◌, refl, sym, ap, ◌∙◌, inl, inr, Bool, true, false, not, ◌&&◌, ◌||◌, some, List, [],
  ◌∷◌, arith, ◌==◌, eq_iff,
}
use radondb_clickhouse_opera.Base.Tests.{eqb, Bool-cases}
use radondb_clickhouse_opera.Base.Lists.{filter, AllOf}
use radondb_clickhouse_opera.ActionPlan.{
  Entry, Diff, is_excluded_path, excluded_after, is_excluded, excluded_addresses, delete_address,
  delete_addresses, exclude_paths,
}

-- the pairs of nodes for which a path is ignored
abbrev pub ignored_pair : String → String → Bool
ignored_pair p c =
    (p == "ObjectMeta" || p == ".ObjectMeta") && c == ".ResourceVersion"
    || (p == "Status" && c == "Status" || p == ".Status" && c == ".Status")

-- a path has such a pair of neighbours
abbrev pub has_ignored_pair : List String → Bool
has_ignored_pair [] = false
has_ignored_pair (p ∷ []) = false
has_ignored_pair (p ∷ c ∷ path) = ignored_pair p c || has_ignored_pair (c ∷ path)

-- a path is ignored if it begins with the status, or has such a pair
abbrev pub ignored : List String → Bool
ignored [] = false
ignored (p ∷ path) = p == "Status" || p == ".Status" || has_ignored_pair (p ∷ path)

is_excluded_path-eq : (p c : String) → is_excluded_path p c ≡ ignored_pair p c
unfolding is_excluded_path
is_excluded_path-eq p c = ground arith

excluded_after-eq :
    (p : String) (path : List String) → excluded_after p path ≡ has_ignored_pair (p ∷ path)
unfolding excluded_after
excluded_after-eq p [] = refl
excluded_after-eq p (c ∷ path) = ground (arith, is_excluded_path-eq p c, excluded_after-eq c path)

same_pair : (p : String) → ignored_pair p p ≡ (p == "Status" || p == ".Status")
same_pair p = elim (Bool-cases (p == ".ResourceVersion")) [
  | inl e ↦ rw ((eq_iff p ".ResourceVersion").0 e) refl
  | inr e ↦ ground arith
]

is_excluded-eq : (path : List String) → is_excluded path ≡ ignored path
unfolding is_excluded
is_excluded-eq [] = refl
is_excluded-eq (p ∷ path) =
    ground (arith, is_excluded_path-eq p p, excluded_after-eq p path, same_pair p)

-- no address stands twice, as in a Go map
abbrev pub listed : ℕ → List Entry → Bool
listed a [] = false
listed a (e ∷ entries) = eqb e.address a || listed a entries

abbrev pub DistinctAddresses : List Entry → Type 0
DistinctAddresses [] = Unit
DistinctAddresses (e ∷ entries) = (listed e.address entries ≡ false) × DistinctAddresses entries

abbrev pub kept : Entry → Bool
kept e = not (ignored e.path)

abbrev member : List ℕ → ℕ → Bool
member [] a = false
member (b ∷ bs) a = eqb a b || member bs a

module _ {A : Type 0} where
  filter-filter :
      (p q : A → Bool) (xs : List A) → filter p (filter q xs) ≡ filter (λ x. q x && p x) xs
  filter-filter p q [] = refl
  filter-filter p q (x ∷ xs) = ground (arith, filter-filter p q xs)

  filter-cong :
      (p q : A → Bool) (xs : List A) → AllOf (λ x. p x ≡ q x) xs → filter p xs ≡ filter q xs
  filter-cong p q [] h = refl
  filter-cong p q (x ∷ xs) h = ground (arith, filter-cong p q xs)

  AllOf-intro : {P : A → Type 0} (xs : List A) → ((x : A) → P x) → AllOf P xs
  AllOf-intro [] f = tt
  AllOf-intro (x ∷ xs) f = (f x, AllOf-intro xs f)

  AllOf-zip :
      {P Q R : A → Type 0} (xs : List A)
      → ((x : A) → P x → Q x → R x)
      → AllOf P xs
      → AllOf Q xs
      → AllOf R xs
  AllOf-zip [] f h k = tt
  AllOf-zip (x ∷ xs) f h k = (f x h.0 k.0, AllOf-zip xs f h.1 k.1)

  filter-all : (xs : List A) → filter (λ x. true) xs ≡ xs
  filter-all [] = refl
  filter-all (x ∷ xs) = ap (λ (ys : List A). x ∷ ys) (filter-all xs)

delete_address-eq :
    (a : ℕ) (entries : List Entry)
    → delete_address a entries ≡ filter (λ e. not (eqb e.address a)) entries
unfolding delete_address
delete_address-eq a [] = refl
delete_address-eq a (e ∷ entries) = ground (arith, delete_address-eq a entries)

delete_addresses-eq :
    (bs : List ℕ) (entries : List Entry)
    → delete_addresses bs entries ≡ filter (λ e. not (member bs e.address)) entries
unfolding delete_addresses
delete_addresses-eq [] entries = sym (filter-all entries)
delete_addresses-eq (b ∷ bs) entries =
    delete_addresses-eq bs (delete_address b entries)
    ∙ rw delete_address-eq (
        filter-filter (λ e. not (member bs e.address)) (λ e. not (eqb e.address b)) entries
        ∙ filter-cong _ _ entries (AllOf-intro entries (λ x. ground arith)))

abbrev Differs : ℕ → Entry → Type 0
Differs a e = eqb e.address a ≡ false

AllOf-listed : (a : ℕ) (entries : List Entry) → listed a entries ≡ false → AllOf (Differs a) entries
AllOf-listed a [] h = tt
AllOf-listed a (e ∷ entries) h = (ground arith, AllOf-listed a entries (ground arith))

absent :
    (a : ℕ) (entries : List Entry)
    → listed a entries ≡ false
    → member (excluded_addresses entries) a ≡ false
unfolding excluded_addresses
absent a [] h = refl
absent a (e ∷ entries) h = ground (arith, absent a entries)

abbrev Agrees : List ℕ → Entry → Type 0
Agrees bs e = member bs e.address ≡ ignored e.path

agree_cons :
    (e : Entry) (bs : List ℕ) (entries : List Entry)
    → AllOf (Differs e.address) entries
    → AllOf (Agrees bs) entries
    → AllOf (Agrees (e.address ∷ bs)) entries
agree_cons e bs entries d h = AllOf-zip entries (λ x u v. ground arith) d h

addresses_excluded :
    (e : Entry) (entries : List Entry)
    → is_excluded e.path ≡ true
    → excluded_addresses (e ∷ entries) ≡ e.address ∷ excluded_addresses entries
unfolding excluded_addresses
addresses_excluded e entries h = rw h refl

addresses_other :
    (e : Entry) (entries : List Entry)
    → is_excluded e.path ≡ false
    → excluded_addresses (e ∷ entries) ≡ excluded_addresses entries
unfolding excluded_addresses
addresses_other e entries h = rw h refl

agree_with :
    (bs cs : List ℕ) (entries : List Entry)
    → bs ≡ cs
    → AllOf (Agrees cs) entries
    → AllOf (Agrees bs) entries
agree_with bs cs entries h a = rw h a

addresses-Agrees :
    (entries : List Entry)
    → DistinctAddresses entries
    → AllOf (Agrees (excluded_addresses entries)) entries
addresses-Agrees [] h = tt
addresses-Agrees (e ∷ entries) (fresh, d) = elim (Bool-cases (is_excluded e.path)) [
  | inl x ↦
      agree_with (excluded_addresses (e ∷ entries)) (e.address ∷ excluded_addresses entries)
        (e ∷ entries) (addresses_excluded e entries x)
        (
          ground (arith, is_excluded-eq e.path),
          agree_cons e (excluded_addresses entries) entries (AllOf-listed e.address entries fresh)
              (addresses-Agrees entries d),
        )
  | inr x ↦
      agree_with (excluded_addresses (e ∷ entries)) (excluded_addresses entries) (e ∷ entries)
        (addresses_other e entries x)
        (
          ground (arith, is_excluded-eq e.path, absent e.address entries),
          addresses-Agrees entries d,
        )
]

-- The exclusion, on a map with distinct addresses, leaves the modified entries whose path is not
-- ignored, in their order, and the added and removed ones.
pub exclude_paths-kept :
    (d : Diff)
    → DistinctAddresses d.modified
    → exclude_paths (some d)
      ≡ some record { added = d.added; removed = d.removed; modified = filter kept d.modified }
unfolding exclude_paths
exclude_paths-kept d h =
    ap (λ (m : List Entry). some record { added = d.added; removed = d.removed; modified = m })
      (delete_addresses-eq (excluded_addresses d.modified) d.modified
        ∙ filter-cong (λ e. not (member (excluded_addresses d.modified) e.address)) kept d.modified
            (AllOf-zip {P = Agrees (excluded_addresses d.modified)} {Q = λ e. Unit} d.modified
              (λ x u v. ground arith) (addresses-Agrees d.modified h)
              (AllOf-intro d.modified (λ x. tt))))
