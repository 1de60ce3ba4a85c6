-- ===== src/Registry/Count.antt =====
-- How often a registry holds an object of a kind, as a number that the operations change.
use radondb_clickhouse_opera.Base.{
  ℕ, zero, suc, ◌+◌, ◌-◌, String, ◌≡◌, refl, inl, inr, Bool, true, false, not, ◌&&◌, Option, none,
  some, List, [], ◌∷◌, ◌++◌, arith, ◌==◌, eq_iff,
}
use radondb_clickhouse_opera.Base.Tests.{ltb, if◌then◌else◌, Bool-cases}
use radondb_clickhouse_opera.Base.Lists.{get_elem?}
use radondb_clickhouse_opera.Base.Dict.{insert, lookup-insert}
use radondb_clickhouse_opera.Registry.{
  ObjectMeta, Entities, Registry, at_kind, is_equal, has_loop, has_entity, registered,
  register_entity, find_index, last, drop_last, put_at, swap_remove, delete_at, delete_entity,
}

abbrev pub one_if : Bool → ℕ
one_if true = 1
one_if false = 0

-- the elements of a slice with the namespace and name of `meta`
abbrev pub count : List ObjectMeta → ObjectMeta → ℕ
count [] meta = 0
count (m ∷ ms) meta = one_if (is_equal m meta) + count ms meta

-- how often a registry holds the object
abbrev pub number : Registry → String → ObjectMeta → ℕ
number none et meta = 0
number (some r) et meta = count (at_kind r et) meta

count-append :
    (xs ys : List ObjectMeta) (m : ObjectMeta) → count (xs ++ ys) m ≡ count xs m + count ys m
count-append [] ys m = omega arith
count-append (x ∷ xs) ys m = omega (arith, count-append xs ys m)

has_loop-count : (ms : List ObjectMeta) (m : ObjectMeta) → has_loop ms m ≡ ltb 0 (count ms m)
unfolding has_loop
has_loop-count [] m = refl
has_loop-count (x ∷ ms) m = ground (arith, has_loop-count ms m)

pub has_entity-number :
    (r : Registry) (et : String) (m : ObjectMeta) → has_entity r et m ≡ ltb 0 (number r et m)
unfolding has_entity
has_entity-number none et m = refl
has_entity-number (some r) et m = has_loop-count (at_kind r et) m

is_equal-registered : (m x : ObjectMeta) → is_equal (registered m) x ≡ is_equal m x
unfolding is_equal
is_equal-registered m x = refl

-- `is_equal` compares by two keys, so equal objects compare alike with any third
pub is_equal_trans : (a b x : ObjectMeta) → is_equal a b ≡ true → is_equal a x ≡ is_equal b x
unfolding is_equal
is_equal_trans a b x h = ground (arith, eq_iff a.namespace b.namespace, eq_iff a.name b.name)

at_kind-insert :
    (r : Entities) (et j : String) (ms : List ObjectMeta)
    → at_kind (insert r et ms) j ≡ (if et == j then ms else at_kind r j)
unfolding at_kind
at_kind-insert r et j ms = ground (arith, lookup-insert r et j ms)

count-drop_last :
    (x : ObjectMeta) (xs : List ObjectMeta) (m : ObjectMeta)
    → count (drop_last (x ∷ xs)) m + one_if (is_equal (last x xs) m) ≡ count (x ∷ xs) m
unfolding drop_last last
count-drop_last x [] m = omega arith
count-drop_last x (y ∷ ys) m = omega (arith, count-drop_last y ys m)

count-put_at :
    (xs : List ObjectMeta) (i : ℕ) (v w m : ObjectMeta)
    → get_elem? xs i ≡ some w
    → count (put_at xs i v) m + one_if (is_equal w m) ≡ count xs m + one_if (is_equal v m)
unfolding put_at
count-put_at [] i v w m h = cc
count-put_at (x ∷ xs) zero v w m h = ground arith
count-put_at (x ∷ xs) (suc i) v w m h = omega (arith, count-put_at xs i v w m h)

-- the last element survives `put_at` at an index before it, and is the new value at its own index
count-swap_remove :
    (xs : List ObjectMeta) (i : ℕ) (w m : ObjectMeta)
    → get_elem? xs i ≡ some w
    → count (swap_remove xs i) m + one_if (is_equal w m) ≡ count xs m
unfolding swap_remove
count-swap_remove [] i w m h = cc
count-swap_remove (x ∷ []) zero w m h = ground arith
count-swap_remove (x ∷ []) (suc i) w m h = cc
count-swap_remove (x ∷ y ∷ ys) zero w m h = ground (arith, count-drop_last y ys m)
count-swap_remove (x ∷ y ∷ ys) (suc zero) w m h =
    omega (arith, count-swap_remove (y ∷ ys) zero w m h)
count-swap_remove (x ∷ y ∷ ys) (suc (suc i)) w m h =
    omega (arith, count-swap_remove (y ∷ ys) (suc i) w m h)

-- an index that the search returns holds an equal object, and without one the count is 0
find_index-some :
    (ms : List ObjectMeta) (meta : ObjectMeta) (n : ℕ) {i : ℕ}
    → find_index ms meta n ≡ some i
    → (j : ℕ) × (w : ObjectMeta) × (i ≡ n + j)
      × (get_elem? ms j ≡ some w)
      × (is_equal w meta ≡ true)
unfolding find_index
find_index-some [] meta n h = cc
find_index-some (m ∷ ms) meta n {i} h = elim (Bool-cases (is_equal m meta)) [
  | inl e ↦ (0, m, ground arith, refl, e)
  | inr e ↦
      let (j, w, a, b, c) = find_index-some ms meta (suc n) {i = i} (ground arith) in
      (suc j, w, omega arith, b, c)
]

find_index-none :
    (ms : List ObjectMeta) (meta : ObjectMeta) (n : ℕ)
    → find_index ms meta n ≡ none
    → count ms meta ≡ 0
unfolding find_index
find_index-none [] meta n h = refl
find_index-none (m ∷ ms) meta n h = ground (arith, find_index-none ms meta (suc n))

-- does the call concern this kind and this object?
abbrev pub concerns : String → ObjectMeta → String → ObjectMeta → Bool
concerns et meta j x = et == j && is_equal meta x

is_equal-right : (m a b : ObjectMeta) → is_equal a b ≡ true → is_equal m a ≡ is_equal m b
unfolding is_equal
is_equal-right m a b h = ground (arith, eq_iff a.namespace b.namespace, eq_iff a.name b.name)

pub is_equal_refl : (m : ObjectMeta) → is_equal m m ≡ true
unfolding is_equal
is_equal_refl m = ground (arith, eq_iff m.namespace m.namespace, eq_iff m.name m.name)

pub count-equal :
    (ms : List ObjectMeta) (a b : ObjectMeta) → is_equal a b ≡ true → count ms a ≡ count ms b
count-equal [] a b h = refl
count-equal (m ∷ ms) a b h = rw (is_equal-right m a b h) (omega (arith, count-equal ms a b h))

delete_hit :
    (r : Entities) (et : String) (meta : ObjectMeta) (i : ℕ) (j : String) (x : ObjectMeta)
    → find_index (at_kind r et) meta zero ≡ some i
    → count (at_kind (insert r et (swap_remove (at_kind r et) i)) j) x
        + one_if (concerns et meta j x)
      ≡ count (at_kind r j) x
delete_hit r et meta i j x h =
    let (k, w, a, b, c) = find_index-some (at_kind r et) meta zero {i = i} h in
    let at : i ≡ k = omega arith in
    rw (at_kind-insert, at)
      (ground
        (arith, count-swap_remove (at_kind r et) k w x b, is_equal_trans w meta x c, eq_iff et j))

number-delete_at :
    (r : Entities) (et : String) (meta : ObjectMeta) (o : Option ℕ) (j : String) (x : ObjectMeta)
    → find_index (at_kind r et) meta zero ≡ o
    → (number (delete_at r et o).0 j x ≡ number (some r) j x - one_if (concerns et meta j x))
      × ((delete_at r et o).1 ≡ has_entity (some r) et meta)
unfolding delete_at
number-delete_at r et meta none j x e = (
  ground (
    arith,
    find_index-none (at_kind r et) meta zero e,
    count-equal (at_kind r et) meta x,
    eq_iff et j,
  ),
  ground (arith, find_index-none (at_kind r et) meta zero e, has_entity-number (some r) et meta),
)
number-delete_at r et meta (some i) j x e = (
  ground (arith, delete_hit r et meta i j x e),
  ground (
    arith,
    delete_hit r et meta i et meta e,
    has_entity-number (some r) et meta,
    is_equal_refl meta,
    eq_iff et et,
  ),
)

-- Deleting takes one object of the kind with that namespace and name away, if there is one, leaves
-- the number of every other object, and reports whether there was one.
pub number-delete :
    (r : Registry) (et : String) (meta : ObjectMeta) (j : String) (x : ObjectMeta)
    → (number (delete_entity r et meta).0 j x ≡ number r j x - one_if (concerns et meta j x))
      × ((delete_entity r et meta).1 ≡ has_entity r et meta)
unfolding delete_entity
number-delete none et meta j x = (omega arith, unfold has_entity in refl)
number-delete (some r) et meta j x = number-delete_at r et meta _ j x refl

-- Registering adds an object that the registry does not hold of that kind, and nothing else.
pub number-register :
    (r : Entities) (et : String) (meta : ObjectMeta) (j : String) (x : ObjectMeta)
    → number (register_entity (some r) et meta) j x
      ≡ number (some r) j x + one_if (concerns et meta j x && not (has_entity (some r) et meta))
unfolding register_entity
number-register r et meta j x = elim (Bool-cases (has_entity (some r) et meta)) [
  | inl e ↦ rw e (ground arith)
  | inr e ↦
      rw (e, at_kind-insert)
        (ground (
          arith,
          count-append (at_kind r et) (registered meta ∷ []) x,
          is_equal-registered meta x,
          eq_iff et j,
        ))
]
