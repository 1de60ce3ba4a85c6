-- ===== src/Util/Maps/Tests.antt =====
-- The merge laws at concrete maps, and runs of the copying helpers.
use radondb_clickhouse_opera.Base.{◌≡◌, refl, none, some, [], ◌∷◌}
use radondb_clickhouse_opera.Base.Dict.{lookup, insert, erase}
use radondb_clickhouse_opera.Util.Maps.{
  StringMap, include_non_empty, copy_map_except, merge_string_maps_overwrite, map_delete_keys,
}

abbrev base : StringMap
base = some (("app", "chop") ∷ ("zone", "a") ∷ [])

abbrev update : StringMap
update = some (("zone", "b") ∷ ("tier", "db") ∷ [])

include_empty : include_non_empty none "k" "" ≡ some none
unfolding include_non_empty lookup insert erase
include_empty = refl

include_panics : include_non_empty none "k" "v" ≡ none
unfolding include_non_empty lookup insert erase
include_panics = refl

copy_except : copy_map_except base ("zone" ∷ []) ≡ ("app", "chop") ∷ []
unfolding copy_map_except lookup insert erase
copy_except = refl

merge_created_empty : merge_string_maps_overwrite none update ("none" ∷ []) ≡ none
unfolding merge_string_maps_overwrite lookup insert erase
merge_created_empty = refl

delete_keys : map_delete_keys base ("app" ∷ "x" ∷ []) ≡ some (("zone", "a") ∷ [])
unfolding map_delete_keys lookup insert erase
delete_keys = refl
