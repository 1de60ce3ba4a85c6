-- ===== src/Util/Maps/Laws.antt =====
-- What a reader of a merged or reduced map finds under each key.
use radondb_clickhouse_opera.Base.{
  String, ◌≡◌, refl, ◌∙◌, ◌↔◌, Bool, true, ◌||◌, Option, none, some, List, [], ◌∷◌, arith, ◌==◌,
  eq_iff,
}
use radondb_clickhouse_opera.Base.Tests.{if◌then◌else◌, is_some}
use radondb_clickhouse_opera.Base.Lists.{contains}
use radondb_clickhouse_opera.Base.Dict.{
  Dict, lookup, keys, has, lookup-nil, lookup-insert, lookup-erase, contains-keys,
}
use radondb_clickhouse_opera.Util.Maps.{
  StringMap, get, no_keys, loop_keys, put_found, overwrite_loop, preserve_loop, non_empty,
  merge_string_maps_overwrite, merge_string_maps_preserve, remove_loop, subtract_string_maps,
  map_delete_keys, found_key, map_has_keys,
}

-- the first of two results that is there
abbrev pub or_else {ℓ} : {A : Type ℓ} → Option A → Option A → Option A
or_else (some a) o = some a
or_else none o = o

-- a merge takes a key if no keys are named, or if it is among them
abbrev pub selected : List String → String → Bool
selected ks k = no_keys ks || contains ks k

get-non_empty : (m : Dict String) (k : String) → get (non_empty m) k ≡ lookup m k
unfolding lookup
get-non_empty [] k = refl
get-non_empty (e ∷ m) k = refl

lookup-put_found :
    (o : Option String) (j : String) (dst : Dict String) (k : String)
    → lookup (put_found o j dst) k ≡ (if j == k then or_else o (lookup dst k) else lookup dst k)
unfolding put_found
lookup-put_found none j dst k = ground arith
lookup-put_found (some v) j dst k = lookup-insert dst j k v

lookup-overwrite_loop :
    (ks : List String) (src dst : Dict String) (k : String)
    → lookup (overwrite_loop ks src dst) k
      ≡ or_else (if contains ks k then lookup src k else none) (lookup dst k)
unfolding overwrite_loop
lookup-overwrite_loop [] src dst k = refl
lookup-overwrite_loop (j ∷ ks) src dst k =
    lookup-overwrite_loop ks src _ k
    ∙ ground (arith, lookup-put_found (lookup src j) j dst k, eq_iff j k, eq_iff k j)

lookup-preserve_loop :
    (ks : List String) (src dst : Dict String) (k : String)
    → lookup (preserve_loop ks src dst) k
      ≡ or_else (lookup dst k) (if contains ks k then lookup src k else none)
unfolding preserve_loop
lookup-preserve_loop [] src dst k = ground arith
lookup-preserve_loop (j ∷ ks) src dst k =
    lookup-preserve_loop ks src _ k
    ∙ ground (arith, lookup-put_found (lookup src j) j dst k, eq_iff j k, eq_iff k j)

lookup-remove_loop :
    (ks : List String) (m : Dict String) (k : String)
    → lookup (remove_loop ks m) k ≡ (if contains ks k then none else lookup m k)
unfolding remove_loop
lookup-remove_loop [] m k = refl
lookup-remove_loop (j ∷ ks) m k =
    lookup-remove_loop ks _ k ∙ ground (arith, lookup-erase m j k, eq_iff j k, eq_iff k j)

loop_keys_lem :
    (src : Dict String) (ks : List String) (k : String)
    → (if contains (loop_keys src ks) k then lookup src k else none)
      ≡ (if selected ks k then lookup src k else none)
loop_keys_lem src [] k = ground (arith, contains-keys src k)
loop_keys_lem src (j ∷ ks) k = refl

-- Reading a key of the overwriting merge gives the value of the source if the merge takes the key
-- and the source has it, and the value of the destination otherwise, for nil maps too.
pub get-merge_overwrite :
    (dst src : StringMap) (ks : List String) (k : String)
    → get (merge_string_maps_overwrite dst src ks) k
      ≡ or_else (if selected ks k then get src k else none) (get dst k)
unfolding merge_string_maps_overwrite
get-merge_overwrite dst none ks k = ground arith
get-merge_overwrite dst (some []) ks k = ground (arith, lookup-nil {V = String} k)
get-merge_overwrite none (some (e ∷ src)) ks k =
    get-non_empty _ k
    ∙ lookup-overwrite_loop (loop_keys (e ∷ src) ks) (e ∷ src) [] k
    ∙ rw (loop_keys_lem, lookup-nil)
get-merge_overwrite (some dst) (some (e ∷ src)) ks k =
    lookup-overwrite_loop (loop_keys (e ∷ src) ks) (e ∷ src) dst k ∙ rw loop_keys_lem

-- Reading a key of the preserving merge gives the value of `dst` if `dst` has the key, and the
-- value of `src` if the merge takes the key otherwise; nil maps included.
pub get-merge_preserve :
    (dst src : StringMap) (ks : List String) (k : String)
    → get (merge_string_maps_preserve dst src ks) k
      ≡ or_else (get dst k) (if selected ks k then get src k else none)
unfolding merge_string_maps_preserve
get-merge_preserve dst none ks k = ground arith
get-merge_preserve dst (some []) ks k = ground (arith, lookup-nil {V = String} k)
get-merge_preserve none (some (e ∷ src)) ks k =
    get-non_empty _ k
    ∙ lookup-preserve_loop (loop_keys (e ∷ src) ks) (e ∷ src) [] k
    ∙ rw (loop_keys_lem, lookup-nil)
get-merge_preserve (some dst) (some (e ∷ src)) ks k =
    lookup-preserve_loop (loop_keys (e ∷ src) ks) (e ∷ src) dst k ∙ rw loop_keys_lem

-- Subtracting a map takes away exactly its keys, and leaves every other entry.
pub get-subtract :
    (base delta : StringMap) (k : String)
    → get (subtract_string_maps base delta) k ≡ (if is_some (get delta k) then none else get base k)
unfolding subtract_string_maps
get-subtract base none k = refl
get-subtract base (some []) k = ground (arith, lookup-nil {V = String} k)
get-subtract none (some (e ∷ delta)) k = ground arith
get-subtract (some []) (some (e ∷ delta)) k = ground (arith, lookup-nil {V = String} k)
get-subtract (some (b ∷ base)) (some (e ∷ delta)) k =
    lookup-remove_loop (keys (e ∷ delta)) (b ∷ base) k ∙ rw contains-keys

get-map_delete_keys :
    (base : StringMap) (ks : List String) (k : String)
    → get (map_delete_keys base ks) k ≡ (if contains ks k then none else get base k)
unfolding map_delete_keys
get-map_delete_keys base [] k = refl
get-map_delete_keys none (j ∷ ks) k = ground arith
get-map_delete_keys (some []) (j ∷ ks) k = ground (arith, lookup-nil {V = String} k)
get-map_delete_keys (some (b ∷ base)) (j ∷ ks) k = lookup-remove_loop (j ∷ ks) (b ∷ base) k

found_key-eq-has : (m : Dict String) (k : String) → found_key m k ≡ has m k
unfolding found_key lookup
found_key-eq-has [] k = refl
found_key-eq-has ((j, v) ∷ m) k = ground (arith, found_key-eq-has m k)

-- `MapHasKeys` holds exactly when every needle has a value in the map.
pub map_has_keys_iff :
    (m : StringMap) (ks : List String)
    → (map_has_keys m ks ≡ true) ↔ ((k : String) → contains ks k ≡ true → is_some (get m k) ≡ true)
unfolding map_has_keys
map_has_keys_iff m [] = (λ h k c. cc, λ h. refl)
map_has_keys_iff none (j ∷ ks) = (λ h. cc, λ h. ground (arith, h j, eq_iff j j))
map_has_keys_iff (some m) (j ∷ ks) = (
  λ h k c.
      ground (
        arith,
        (map_has_keys_iff (some m) ks).0 (ground arith) k,
        found_key-eq-has m j,
        eq_iff k j,
      ),
  λ h. ground (
    arith,
    h j,
    eq_iff j j,
    found_key-eq-has m j,
    (map_has_keys_iff (some m) ks).1 (λ k c. h k (ground arith)),
  ),
)
