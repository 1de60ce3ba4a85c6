-- ===== src/Registry/Laws.antt =====
-- Registering and subtracting, seen as operations on sets of objects.
use radondb_clickhouse_opera.Base.{
  ℕ, zero, ◌+◌, ◌-◌, ◌≤◌, String, ◌≡◌, refl, sym, ◌∙◌, inl, inr, true, not, ◌&&◌, Option, none,
  some, List, [], ◌∷◌, arith, ◌==◌, eq_iff,
}
use radondb_clickhouse_opera.Base.Tests.{if◌then◌else◌, Bool-cases, Option-cases}
use radondb_clickhouse_opera.Base.Lists.{length}
use radondb_clickhouse_opera.Base.Dict.{lookup, insert, lookup-cons, NodupKeys, insert-NodupKeys}
use radondb_clickhouse_opera.Registry.{
  ObjectMeta, Entities, Registry, at_kind, len, find_index, has_entity, register_entity, delete_at,
  delete_entity, delete_all, walk_delete, subtract,
}
use radondb_clickhouse_opera.Registry.Count.{
  count, number, concerns, has_entity-number, number-delete, number-register, count-equal,
}

number-delete_all :
    (ms : List ObjectMeta) (et : String) (r : Registry) (j : String) (x : ObjectMeta)
    → number (delete_all ms et r) j x ≡ number r j x - (if et == j then count ms x else 0)
unfolding delete_all
number-delete_all [] et r j x = ground arith
number-delete_all (m ∷ ms) et r j x =
    number-delete_all ms et (delete_entity r et m).0 j x
    ∙ ground (arith, (number-delete r et m j x).0)

number-nil : (j : String) (x : ObjectMeta) → number (some []) j x ≡ 0
unfolding at_kind lookup
number-nil j x = refl

-- how often the entries of a walk name the object
abbrev pub occurrences : Entities → String → ObjectMeta → ℕ
occurrences [] j x = 0
occurrences ((et, ms) ∷ sub) j x = (if et == j then count ms x else 0) + occurrences sub j x

number-walk_delete :
    (sub : Entities) (r : Registry) (j : String) (x : ObjectMeta)
    → number (walk_delete sub r) j x ≡ number r j x - occurrences sub j x
unfolding walk_delete
number-walk_delete [] r j x = omega arith
number-walk_delete ((et, ms) ∷ sub) r j x =
    omega (arith, number-walk_delete sub (delete_all ms et r) j x, number-delete_all ms et r j x)

occurrences-absent :
    (sub : Entities) (j : String) (x : ObjectMeta) → lookup sub j ≡ none → occurrences sub j x ≡ 0
occurrences-absent [] j x h = refl
occurrences-absent ((et, ms) ∷ sub) j x h =
    ground (arith, lookup-cons sub et j ms, occurrences-absent sub j x)

pub occurrences-eq-number :
    (sub : Entities) (j : String) (x : ObjectMeta)
    → NodupKeys sub
    → occurrences sub j x ≡ number (some sub) j x
unfolding at_kind
occurrences-eq-number [] j x h = sym (number-nil j x)
occurrences-eq-number ((et, ms) ∷ sub) j x (fresh, u) = ground (
  arith,
  lookup-cons sub et j ms,
  occurrences-eq-number sub j x u,
  occurrences-absent sub et x fresh,
  eq_iff et j,
)

-- the kinds of a registry are the keys of a Go map
abbrev pub IsMap : Registry → Type 0
IsMap none = Unit
IsMap (some r) = NodupKeys r

-- Subtracting a registry is the difference of multisets: of every object of every kind as many are
-- left as the registry holds more than the subtracted one.
pub number-subtract :
    (r s : Registry) (j : String) (x : ObjectMeta)
    → IsMap s
    → number (subtract r s) j x ≡ number r j x - number s j x
unfolding subtract
number-subtract r none j x h = omega arith
number-subtract r (some []) j x h = rw number-nil (omega arith)
number-subtract none (some (e ∷ sub)) j x h = omega arith
number-subtract (some []) (some (e ∷ sub)) j x h = rw number-nil (omega arith)
number-subtract (some (b ∷ r)) (some (e ∷ sub)) j x h =
    omega (
      arith,
      number-walk_delete (e ∷ sub) (some (b ∷ r)) j x,
      occurrences-eq-number (e ∷ sub) j x h,
    )

-- no object stands twice under a kind
pub record IsSound (r : Registry) : Type 0 where
  pub single : (j : String) (x : ObjectMeta) → number r j x ≤ 1
  pub is_map : IsMap r

register-IsMap :
    (r : Entities) (et : String) (m : ObjectMeta)
    → NodupKeys r
    → IsMap (register_entity (some r) et m)
unfolding register_entity
register-IsMap r et m h = elim (Bool-cases (has_entity (some r) et m)) [
  | inl e ↦ rw e h
  | inr e ↦ rw e (insert-NodupKeys r et _ h)
]

module _ (r : Entities) (et : String) (m : ObjectMeta) (j : String) (x : ObjectMeta) where
  register-single : number (some r) j x ≤ 1 → number (register_entity (some r) et m) j x ≤ 1
  register-single h = ground (
    arith,
    number-register r et m j x,
    has_entity-number (some r) et m,
    count-equal (at_kind r et) m x,
    eq_iff et j,
  )

  pub has-register :
      has_entity (register_entity (some r) et m) j x
      ≡ (if concerns et m j x then true else has_entity (some r) j x)
  has-register = ground (
    arith,
    number-register r et m j x,
    has_entity-number (register_entity (some r) et m) j x,
    has_entity-number (some r) j x,
    has_entity-number (some r) et m,
    count-equal (at_kind r et) m x,
    eq_iff et j,
  )

-- Registering an object keeps a registry sound, the object is registered afterwards, and every
-- other answer stays.
pub register-IsSound :
    (r : Entities) (et : String) (m : ObjectMeta)
    → IsSound (some r)
    → IsSound (register_entity (some r) et m)
      × ((j : String) (x : ObjectMeta)
          → has_entity (register_entity (some r) et m) j x
            ≡ (if concerns et m j x then true else has_entity (some r) j x))
register-IsSound r et m s = (
  record {
    single = λ j x. register-single r et m j x (s.single j x);
    is_map = register-IsMap r et m s.is_map;
  },
  has-register r et m,
)

-- On sound registries, which hold no object twice, subtraction keeps exactly the objects that the
-- other registry does not hold.
pub has-subtract :
    (r s : Registry) (j : String) (x : ObjectMeta)
    → IsSound r
    → IsSound s
    → has_entity (subtract r s) j x ≡ (has_entity r j x && not (has_entity s j x))
has-subtract r s j x h k = ground (
  arith,
  number-subtract r s j x k.is_map,
  h.single j x,
  k.single j x,
  has_entity-number r j x,
  has_entity-number s j x,
  has_entity-number (subtract r s) j x,
)

length-insert_old :
    (r : Entities) (et : String) (ms old : List ObjectMeta)
    → lookup r et ≡ some old
    → length (insert r et ms) ≡ length r
unfolding lookup insert
length-insert_old [] et ms old h = cc
length-insert_old ((k, v) ∷ r) et ms old h =
    ground (arith, length-insert_old r et ms old, eq_iff k et)

at_kind-absent : (r : Entities) (et : String) → lookup r et ≡ none → at_kind r et ≡ []
unfolding at_kind
at_kind-absent r et e = rw (e, at_kind)

find_index-absent :
    (r : Entities) (et : String) (meta : ObjectMeta)
    → lookup r et ≡ none
    → find_index (at_kind r et) meta zero ≡ none
find_index-absent r et meta e = rw (at_kind-absent r et e) (unfold find_index in refl)

length-delete_at :
    (r : Entities) (et : String) (meta : ObjectMeta) (o : Option ℕ)
    → find_index (at_kind r et) meta zero ≡ o
    → len (delete_at r et o).0 none ≡ length r
unfolding delete_at len
length-delete_at r et meta none h = refl
length-delete_at r et meta (some i) h = elim (Option-cases (lookup r et)) [
  | inl e ↦ cc (h, find_index-absent r et meta e)
  | inr (old, e) ↦ length-insert_old r et _ old e
]

-- Len without a kind is not changed by deleting an object, even the last one of its kind.
pub len-delete :
    (r : Registry) (et : String) (meta : ObjectMeta)
    → len (delete_entity r et meta).0 none ≡ len r none
unfolding delete_entity
len-delete none et meta = refl
len-delete (some r) et meta = unfold len in length-delete_at r et meta _ refl
