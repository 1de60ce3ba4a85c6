-- ===== src/Util/Maps.antt =====
-- pkg/util/map.go: merging, subtracting and searching maps of texts. `none` is a nil map; a result
-- in `Option` is `none` where Go panics (a write to a nil map).
pub mod Laws
mod Tests
use radondb_clickhouse_opera.Base.{
  String, Bool, true, false, ◌&&◌, Option, none, some, List, [], ◌∷◌, ◌==◌,
}
use radondb_clickhouse_opera.Base.Tests.{if◌then◌else◌}
use radondb_clickhouse_opera.Base.Lists.{contains}
use radondb_clickhouse_opera.Base.Dict.{Dict, lookup, insert, erase, keys, has}

abbrev pub StringMap : Type 0
StringMap = Option (Dict String)

-- a read, which a nil map allows
abbrev pub get : StringMap → String → Option String
get none k = none
get (some m) k = lookup m k

abbrev pub is_empty : StringMap → Bool
is_empty none = true
is_empty (some []) = true
is_empty (some (e ∷ m)) = false

abbrev no_keys : List String → Bool
no_keys [] = true
no_keys (k ∷ ks) = false

unfoldable pub include_non_empty : StringMap → String → String → Option StringMap
include_non_empty dst key src =
    if src == ""
    then some dst
    else elim dst [ none ↦ none | some m ↦ some (some (insert m key src)) ]

-- `for k, v := range src { result[k] = v }` into a new map
copy_loop : Dict String → Dict String → Dict String
copy_loop [] result = result
copy_loop ((k, v) ∷ src) result = copy_loop src (insert result k v)

unfoldable pub copy_map : StringMap → Dict String
unfolding copy_loop
copy_map none = []
copy_map (some src) = copy_loop src []

delete_loop : List String → Dict String → Dict String
delete_loop [] m = m
delete_loop (k ∷ ks) m = delete_loop ks (erase m k)

unfoldable pub copy_map_except : StringMap → List String → Dict String
unfolding copy_map delete_loop
copy_map_except src except = delete_loop except (copy_map src)

-- the keys over which a merge loops: the given ones, or all of `src`
abbrev loop_keys : Dict String → List String → List String
loop_keys src [] = keys src
loop_keys src (k ∷ ks) = k ∷ ks

-- `dst[key] = value` if the read of `src` found a value
put_found : Option String → String → Dict String → Dict String
put_found none key dst = dst
put_found (some value) key dst = insert dst key value

overwrite_loop : List String → Dict String → Dict String → Dict String
unfolding put_found
overwrite_loop [] src dst = dst
overwrite_loop (k ∷ ks) src dst = overwrite_loop ks src (put_found (lookup src k) k dst)

-- the same, for a key that `dst` does not have
preserve_loop : List String → Dict String → Dict String → Dict String
unfolding put_found
preserve_loop [] src dst = dst
preserve_loop (k ∷ ks) src dst =
    preserve_loop ks src (if has dst k then dst else put_found (lookup src k) k dst)

-- a map that the merge created and left empty is given back as nil
abbrev non_empty : Dict String → StringMap
non_empty [] = none
non_empty (e ∷ m) = some (e ∷ m)

unfoldable pub merge_string_maps_overwrite : StringMap → StringMap → List String → StringMap
unfolding overwrite_loop
merge_string_maps_overwrite dst none ks = dst
merge_string_maps_overwrite dst (some []) ks = dst
merge_string_maps_overwrite none (some (e ∷ src)) ks =
    non_empty (overwrite_loop (loop_keys (e ∷ src) ks) (e ∷ src) [])
merge_string_maps_overwrite (some dst) (some (e ∷ src)) ks =
    some (overwrite_loop (loop_keys (e ∷ src) ks) (e ∷ src) dst)

unfoldable pub merge_string_maps_preserve : StringMap → StringMap → List String → StringMap
unfolding preserve_loop
merge_string_maps_preserve dst none ks = dst
merge_string_maps_preserve dst (some []) ks = dst
merge_string_maps_preserve none (some (e ∷ src)) ks =
    non_empty (preserve_loop (loop_keys (e ∷ src) ks) (e ∷ src) [])
merge_string_maps_preserve (some dst) (some (e ∷ src)) ks =
    some (preserve_loop (loop_keys (e ∷ src) ks) (e ∷ src) dst)

-- `if _, ok := base[key]; ok { delete(base, key) }` for each key
remove_loop : List String → Dict String → Dict String
remove_loop [] base = base
remove_loop (k ∷ ks) base = remove_loop ks (if has base k then erase base k else base)

unfoldable pub subtract_string_maps : StringMap → StringMap → StringMap
unfolding remove_loop
subtract_string_maps base none = base
subtract_string_maps base (some []) = base
subtract_string_maps none (some (e ∷ delta)) = none
subtract_string_maps (some []) (some (e ∷ delta)) = some []
subtract_string_maps (some (b ∷ base)) (some (e ∷ delta)) =
    some (remove_loop (keys (e ∷ delta)) (b ∷ base))

unfoldable pub map_delete_keys : StringMap → List String → StringMap
unfolding remove_loop
map_delete_keys base [] = base
map_delete_keys none (k ∷ ks) = none
map_delete_keys (some []) (k ∷ ks) = some []
map_delete_keys (some (b ∷ base)) (k ∷ ks) = some (remove_loop (k ∷ ks) (b ∷ base))

-- the inner loop: is the needle one of the keys of `m`?
found_key : Dict String → String → Bool
found_key [] needle = false
found_key ((key, v) ∷ m) needle =
    let rest = found_key m needle in if key == needle then true else rest

unfoldable pub map_has_keys : StringMap → List String → Bool
unfolding found_key
map_has_keys m [] = true
map_has_keys none (needle ∷ ks) = false
map_has_keys (some m) (needle ∷ ks) =
    let rest = map_has_keys (some m) ks in if found_key m needle then rest else false
