-- ===== src/Settings/Tests.antt =====
-- A host's settings and those of its cluster, with a path that is not normal and files of sections.
use radondb_clickhouse_opera.Base.{String, ◌≡◌, ◌↔◌, refl, true, false, none, some, [], ◌∷◌}
use radondb_clickhouse_opera.Base.Lists.{contains}
use radondb_clickhouse_opera.Base.Dict.{Dict, lookup, keys}
use radondb_clickhouse_opera.Base.Tests.{if◌then◌else◌, is_some}
use radondb_clickhouse_opera.Util.Maps
use radondb_clickhouse_opera.Util.Maps.Laws.{or_else}
use radondb_clickhouse_opera.Settings.Path.{section_common, section_users}
use radondb_clickhouse_opera.Settings.{Setting, new_setting_scalar, get, names, merge_from, filter}
use radondb_clickhouse_opera.Settings.Merge.{IsMap, merge_from-chain}
use radondb_clickhouse_opera.Settings.Select.{selects, get-filter}
use radondb_clickhouse_opera.Settings.Files.{
  get_section_string_map, IsFile, get_section_string_map_lem,
}
use radondb_clickhouse_opera.Settings.Paths.{normalize_paths, is_normal, moved, get-normalize_paths}

abbrev own : Dict Setting
own = ("config.d//a.xml", new_setting_scalar "1") ∷ ("users.d/b.xml", new_setting_scalar "2") ∷ []

abbrev inherited : Dict Setting
inherited = ("users.d/b.xml", new_setting_scalar "3") ∷ ("max", new_setting_scalar "4") ∷ []

own-IsMap : IsMap (some own)
unfolding lookup
own-IsMap = (refl, (refl, tt))

inherited-IsMap : IsMap (some inherited)
unfolding lookup
inherited-IsMap = (refl, (refl, tt))

merge_from-chain_example :
    (get (merge_from none (merge_from (some own) (some inherited))) "users.d/b.xml"
      ≡ or_else
          (get none "users.d/b.xml")
          (or_else (get (some own) "users.d/b.xml") (get (some inherited) "users.d/b.xml")))
    × (get (merge_from (merge_from none (some own)) (some inherited)) "users.d/b.xml"
        ≡ get (merge_from none (merge_from (some own) (some inherited))) "users.d/b.xml")
merge_from-chain_example = merge_from-chain none (some own) (some inherited) "users.d/b.xml"

get-filter_example :
    get (filter (some own) (some (section_users ∷ [])) none false) "users.d/b.xml" ≡ (
      if selects (some (section_users ∷ [])) none false "users.d/b.xml"
      then get (some own) "users.d/b.xml"
      else none)
get-filter_example =
    get-filter (some own) (some (section_users ∷ [])) none false "users.d/b.xml" own-IsMap

get_section_string_map_lem_example :
    let result = get_section_string_map (some own) section_common false in
    ((is_some (Maps.get result "a.xml") ≡ true) ↔ (
      (path : String) × (contains (keys own) path ≡ true)
      × (v : String) × IsFile (some own) section_common false path "a.xml" v))
    × ((v : String)
        → Maps.get result "a.xml" ≡ some v
        → (path : String) × (contains (keys own) path ≡ true)
          × IsFile (some own) section_common false path "a.xml" v)
get_section_string_map_lem_example = get_section_string_map_lem own section_common false "a.xml"

get-normalize_paths_example : get (normalize_paths (some own)) "config.d/a.xml" ≡ (
    if is_normal "config.d/a.xml"
    then or_else
        (moved (get (some own)) (names (some own)) "config.d/a.xml")
        (get (some own) "config.d/a.xml")
    else none)
get-normalize_paths_example = get-normalize_paths (some own) "config.d/a.xml"
