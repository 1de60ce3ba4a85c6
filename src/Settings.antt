-- ===== src/Settings.antt =====
-- pkg/apis/clickhouse.radondb.com/v1/type_settings.go: named settings. A `*Settings` is an `Option`
-- of a map; a nil map inside reads like an empty one, and a write creates it. Methods that write
-- return the new settings.
pub mod Path
pub mod Merge
pub mod Sections
pub mod Select
pub mod Files
pub mod Paths
mod Tests
use radondb_clickhouse_opera.Base.{
  ℕ, String, ◌<>◌, Bool, true, false, ◌&&◌, ◌||◌, not, Option, none, some, List, [], ◌∷◌, ◌++◌,
  ◌==◌,
}
use radondb_clickhouse_opera.Base.Tests.{eqb, if◌then◌else◌, is_some}
use radondb_clickhouse_opera.Base.Lists.{length}
use radondb_clickhouse_opera.Base.Dict.{Dict, lookup, insert, erase, keys}
use radondb_clickhouse_opera.Settings.Path.{
  Section, SectionError, Answer, ok, failed, no_section_specified, unknown_section,
  no_filename_specified, section_common, section_users, section_host, section_empty,
  normalize_settings_key_as_path, get_section_from_path, get_filename_from_path,
}

pub record Setting : Type 0 where
  pub is_scalar : Bool
  pub scalar : String
  pub vector : List String

abbrev pub new_setting_scalar : String → Setting
new_setting_scalar s = record { is_scalar = true; scalar = s; vector = [] }

abbrev pub new_setting_vector : List String → Setting
new_setting_vector v = record { is_scalar = false; scalar = ""; vector = v }

unfoldable pub as_vector : Setting → List String
as_vector s = if s.is_scalar then s.scalar ∷ [] else s.vector

-- `strings.Join(vector, ",")`
join_comma : List String → String
join_comma [] = ""
join_comma (v ∷ []) = v
join_comma (v ∷ w ∷ vs) = v <> ("," <> join_comma (w ∷ vs))

-- `String()`, which a nil setting allows
unfoldable pub to_string : Option Setting → String
unfolding join_comma
to_string none = ""
to_string (some s) = if s.is_scalar then s.scalar else join_comma s.vector

abbrev pub Settings : Type 0
Settings = Option (Dict Setting)

abbrev pub new_settings : Settings
new_settings = some []

unfoldable pub len : Settings → ℕ
len none = 0
len (some m) = length m

unfoldable pub is_zero : Settings → Bool
unfolding len
is_zero settings = eqb (len settings) 0

-- the names, in the order of `Walk`
abbrev pub names : Settings → List String
names none = []
names (some m) = keys m

unfoldable pub has : Settings → String → Bool
has none name = false
has (some m) name = is_some (lookup m name)

unfoldable pub get : Settings → String → Option Setting
get none name = none
get (some m) name = lookup m name

unfoldable pub set : Settings → String → Setting → Settings
set none name setting = none
set (some m) name setting = some (insert m name setting)

unfoldable pub set_if_not_exists : Settings → String → Setting → Settings
set_if_not_exists settings name setting =
    if not (has settings name) then set settings name setting else settings

unfoldable pub delete : Settings → String → Settings
delete none name = none
delete (some m) name = if not (has (some m) name) then some m else some (erase m name)

unfoldable pub get_value_as_scalar : Settings → String → Option String
get_value_as_scalar settings name = elim (get settings name) [
  | none ↦ none
  | some setting ↦ if setting.is_scalar then some setting.scalar else none
]

unfoldable pub get_value_as_vector : Settings → String → Option (List String)
get_value_as_vector settings name = elim (get settings name) [
  | none ↦ none
  | some setting ↦ if setting.is_scalar then none else some setting.vector
]

merge_loop : Dict Setting → Settings → Settings
merge_loop [] settings = settings
merge_loop ((key, value) ∷ src) settings = merge_loop src (set_if_not_exists settings key value)

-- `NewSettings()` for a nil receiver
abbrev pub ensure : Settings → Settings
ensure none = new_settings
ensure (some m) = some m

-- a receiver that has a value keeps it
unfoldable pub merge_from : Settings → Settings → Settings
unfolding merge_loop
merge_from settings none = settings
merge_from settings (some []) = settings
merge_from settings (some (e ∷ src)) = merge_loop (e ∷ src) (ensure settings)

pub merge_cb_loop : Dict Setting → (String → Setting → Bool) → Settings → Settings
merge_cb_loop [] accept settings = settings
merge_cb_loop ((key, value) ∷ src) accept settings =
    merge_cb_loop src accept (if accept key value then set settings key value else settings)

-- an accepted entry of the source overwrites
unfoldable pub merge_from_cb : Settings → Settings → (String → Setting → Bool) → Settings
unfolding merge_cb_loop
merge_from_cb settings none accept = settings
merge_from_cb settings (some []) accept = settings
merge_from_cb settings (some (e ∷ src)) accept = merge_cb_loop (e ∷ src) accept (ensure settings)

pub same_section : Section → Section → Bool
same_section section_empty section_empty = true
same_section section_common section_common = true
same_section section_users section_users = true
same_section section_host section_host = true
same_section a b = false

pub in_array : Section → List Section → Bool
unfolding same_section
in_array needle [] = false
in_array needle (item ∷ haystack) =
    let rest = in_array needle haystack in if same_section item needle then true else rest

-- an argument that may be a nil slice
abbrev included : Option (List Section) → Section → Bool
included none s = true
included (some sections) s = in_array s sections

abbrev excluded : Option (List Section) → Section → Bool
excluded none s = false
excluded (some sections) s = in_array s sections

-- does `Filter` keep a path with this section?
pub keeps : Option (List Section) → Option (List Section) → Bool → Answer Section → Bool
unfolding in_array
keeps include exclude include_unspecified (ok s) = included include s && not (excluded exclude s)
keeps include exclude include_unspecified (failed no_section_specified) = include_unspecified
keeps include exclude include_unspecified (failed e) = false

filter_loop : Dict Setting → (String → Bool) → Settings → Settings
filter_loop [] keep res = res
filter_loop ((path, setting) ∷ m) keep res =
    filter_loop m keep (if keep path then set res path setting else res)

unfoldable pub filter : Settings → Option (List Section) → Option (List Section) → Bool → Settings
unfolding filter_loop keeps
filter none include exclude include_unspecified = new_settings
filter (some m) include exclude include_unspecified =
    filter_loop m (λ path. keeps include exclude include_unspecified (get_section_from_path path))
      new_settings
