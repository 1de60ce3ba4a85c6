-- ===== src/Settings/Path.antt =====
-- pkg/apis/clickhouse.radondb.com/v1/type_settings.go: the texts behind setting names. A name is a
-- path, section/file.name or user/action, whose parts a '/' separates.
pub mod Laws
pub mod Normal
use Prim.Native.Char.{Char, code}
use Prim.Native.String.{[] as empty, ◌∷◌ as ◌::◌}
use radondb_clickhouse_opera.Base.{
  ℕ, ◌+◌, map, String, Bool, true, false, ◌&&◌, ◌||◌, not, List, [], ◌∷◌, ◌==◌,
}
use radondb_clickhouse_opera.Base.Tests.{leb, eqb, if◌then◌else◌}
use radondb_clickhouse_opera.Util.Text.{codes, same}

unfoldable pub is_slash : Char → Bool
is_slash c = eqb (code c) b'/'

-- puts a character in front of the first part
attach : Char → List String → List String
attach c [] = (c :: "") ∷ []
attach c (part ∷ parts) = (c :: part) ∷ parts

-- `strings.Split(path, "/")`
unfoldable pub split : String → List String
unfolding attach is_slash
split empty = "" ∷ []
split (c :: path) = let parts = split path in if is_slash c then "" ∷ parts else attach c parts

-- `regexp.MustCompile("//+").ReplaceAllString(path, "/")`: of a run of slashes the first is left.
-- The flag says that the character before is a slash.
collapse : Bool → String → String
collapse after_slash empty = ""
collapse after_slash (c :: path) =
    let rest = collapse (is_slash c) path in if is_slash c && after_slash then rest else c :: rest

-- `strings.Trim(path, "/")`, from the left and from the right
trim_left : String → String
trim_left empty = ""
trim_left (c :: path) = let rest = trim_left path in if is_slash c then rest else c :: path

trim_right : String → String
trim_right empty = ""
trim_right (c :: path) =
    let rest = trim_right path in if is_slash c && rest == "" then "" else c :: rest

unfoldable pub normalize_settings_key_as_path : String → String
unfolding collapse trim_left trim_right is_slash
normalize_settings_key_as_path path = trim_right (trim_left (collapse false path))

pub data SectionError : Type 0 where
  no_section_specified unknown_section no_filename_specified : SectionError

pub data Section : Type 0 where
  section_empty section_common section_users section_host : Section

-- the result of a call that returns a value and an error
pub data Answer {ℓ} (A : Type ℓ) : Type ℓ where
  ok : A → Answer A
  failed : SectionError → Answer A

-- the folder names of const.go, for which a section has a second spelling
abbrev pub common_config_dir : String
common_config_dir = "config.d"

abbrev pub users_config_dir : String
users_config_dir = "users.d"

abbrev pub host_config_dir : String
host_config_dir = "conf.d"

-- `strings.EqualFold` with an ASCII text: beside the ASCII letters only U+017F and U+212A fold to
-- ASCII ones, and the other code points above 127 stay above.
fold : ℕ → ℕ
fold c =
    if leb 65 c && leb c 90
    then c + 32
    else if eqb c 0x17f
    then 0x73
    else if eqb c 0x212a
    then 0x6b
    else c

equal_fold : String → String → Bool
unfolding fold same
equal_fold s t = same (map fold (codes s)) (map fold (codes t))

unfoldable pub string2section : String → Answer Section
unfolding equal_fold
string2section section =
    if equal_fold section "COMMON" || equal_fold section common_config_dir
    then ok section_common
    else if equal_fold section "USERS" || equal_fold section users_config_dir
    then ok section_users
    else if equal_fold section "HOST" || equal_fold section host_config_dir
    then ok section_host
    else failed unknown_section

section_of_parts : List String → Answer Section
unfolding string2section
section_of_parts [] = failed no_section_specified
section_of_parts (part ∷ []) = failed no_section_specified
section_of_parts (section ∷ part ∷ parts) = string2section section

unfoldable pub get_section_from_path : String → Answer Section
unfolding split section_of_parts
get_section_from_path path = section_of_parts (split path)

last_part : List String → String
last_part [] = ""
last_part (part ∷ []) = part
last_part (part ∷ next ∷ parts) = last_part (next ∷ parts)

unfoldable pub get_filename_from_path : String → Answer String
unfolding split last_part
get_filename_from_path path =
    let filename = last_part (split path) in
    if filename == "" then failed no_filename_specified else ok filename
