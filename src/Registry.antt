-- ===== src/Registry.antt =====
-- pkg/model/registry.go: the objects of each kind that a reconcile has seen. A registry pointer is
-- an `Option`; methods that write return the new registry beside their result.
pub mod Count
pub mod Laws
pub mod Kinds
pub mod Keys
mod Tests
use radondb_clickhouse_opera.Base.{
  ℕ, zero, suc, String, Bool, true, false, ◌&&◌, Option, none, some, List, [], ◌∷◌, ◌++◌, ◌==◌,
}
use radondb_clickhouse_opera.Base.Tests.{eqb, if◌then◌else◌}
use radondb_clickhouse_opera.Base.Lists.{length}
use radondb_clickhouse_opera.Base.Dict.{Dict, lookup, insert}
use radondb_clickhouse_opera.Util.Maps.{StringMap, merge_string_maps_overwrite}

-- `EntityType` is a text, with these values
abbrev pub stateful_set : String
stateful_set = "StatefulSet"

abbrev pub config_map : String
config_map = "ConfigMap"

abbrev pub service : String
service = "Service"

abbrev pub pvc : String
pvc = "PVC"

abbrev pub pv : String
pv = "PV"

-- The fields of the Kubernetes `ObjectMeta` that the operator reads.
pub record ObjectMeta : Type 0 where
  pub namespace : String
  pub name : String
  pub labels : StringMap
  pub annotations : StringMap
  pub resource_version : String
  pub finalizers : List String
  pub deletion_timestamp : Option ℕ

abbrev pub Entities : Type 0
Entities = Dict (List ObjectMeta)

abbrev pub Registry : Type 0
Registry = Option Entities

abbrev pub new_registry : Registry
new_registry = some []

-- `r.r[what]`: a missing kind reads as the empty slice
unfoldable pub at_kind : Entities → String → List ObjectMeta
at_kind r et = elim (lookup r et) [ none ↦ [] | some ms ↦ ms ]

-- `Len()` and `Len(what)`
unfoldable pub len : Registry → Option String → ℕ
len none what = 0
len (some r) none = length r
len (some r) (some what) = length (at_kind r what)

unfoldable pub is_equal : ObjectMeta → ObjectMeta → Bool
is_equal a b = a.namespace == b.namespace && a.name == b.name

has_loop : List ObjectMeta → ObjectMeta → Bool
has_loop [] meta = false
has_loop (m ∷ ms) meta = let rest = has_loop ms meta in if is_equal m meta then true else rest

unfoldable pub has_entity : Registry → String → ObjectMeta → Bool
unfolding has_loop
has_entity none et meta = false
has_entity (some r) et meta = has_loop (at_kind r et) meta

-- what the registry keeps of an object
abbrev pub registered : ObjectMeta → ObjectMeta
registered meta = record {
  namespace = meta.namespace;
  name = meta.name;
  labels = merge_string_maps_overwrite none meta.labels [];
  annotations = merge_string_maps_overwrite none meta.annotations [];
  resource_version = "";
  finalizers = [];
  deletion_timestamp = none;
}

unfoldable pub register_entity : Registry → String → ObjectMeta → Registry
register_entity none et meta = none
register_entity (some r) et meta =
    if has_entity (some r) et meta
    then some r
    else some (insert r et (at_kind r et ++ (registered meta ∷ [])))

-- the index of the first equal element, counted from `i`
find_index : List ObjectMeta → ObjectMeta → ℕ → Option ℕ
find_index [] meta i = none
find_index (m ∷ ms) meta i =
    let rest = find_index ms meta (suc i) in if is_equal m meta then some i else rest

-- `xs[len(xs)-1]`, for a slice that begins with `x`
last : ObjectMeta → List ObjectMeta → ObjectMeta
last x [] = x
last x (y ∷ ys) = last y ys

-- `xs[:len(xs)-1]`
drop_last : List ObjectMeta → List ObjectMeta
drop_last [] = []
drop_last (x ∷ []) = []
drop_last (x ∷ y ∷ ys) = x ∷ drop_last (y ∷ ys)

-- `xs[i] = v`
put_at : List ObjectMeta → ℕ → ObjectMeta → List ObjectMeta
put_at [] i v = []
put_at (x ∷ xs) zero v = v ∷ xs
put_at (x ∷ xs) (suc i) v = x ∷ put_at xs i v

-- copy the last element to index `i`, and cut the slice by one
swap_remove : List ObjectMeta → ℕ → List ObjectMeta
unfolding last drop_last put_at
swap_remove [] i = []
swap_remove (x ∷ xs) i = drop_last (put_at (x ∷ xs) i (last x xs))

-- the loop body at the index that was found
delete_at : Entities → String → Option ℕ → Registry × Bool
unfolding swap_remove
delete_at r et none = (some r, false)
delete_at r et (some i) = (some (insert r et (swap_remove (at_kind r et) i)), true)

unfoldable pub delete_entity : Registry → String → ObjectMeta → Registry × Bool
unfolding find_index delete_at
delete_entity none et meta = (none, false)
delete_entity (some r) et meta = delete_at r et (find_index (at_kind r et) meta zero)

-- the walk over `sub` that deletes each of its objects
delete_all : List ObjectMeta → String → Registry → Registry
delete_all [] et r = r
delete_all (m ∷ ms) et r = delete_all ms et (delete_entity r et m).0

walk_delete : Entities → Registry → Registry
unfolding delete_all
walk_delete [] r = r
walk_delete ((et, ms) ∷ sub) r = walk_delete sub (delete_all ms et r)

unfoldable pub subtract : Registry → Registry → Registry
unfolding walk_delete
subtract r none = r
subtract r (some []) = r
subtract none (some (e ∷ sub)) = none
subtract (some []) (some (e ∷ sub)) = some []
subtract (some (b ∷ r)) (some (e ∷ sub)) = walk_delete (e ∷ sub) (some (b ∷ r))
