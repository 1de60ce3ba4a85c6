-- ===== src/Util/Text.antt =====
-- pkg/util/string.go: texts that stand for a Boolean value.
pub mod Laws
mod Tests
use Prim.Native.Char.{code}
use radondb_clickhouse_opera.Base.{
  ℕ, ◌+◌, String, Bool, true, false, ◌&&◌, ◌||◌, List, [], ◌∷◌, map,
}
use radondb_clickhouse_opera.Base.Tests.{leb, eqb, if◌then◌else◌}

-- The code points of a text.
abbrev pub codes : String → List ℕ
codes String.[] = []
codes (String.◌∷◌ c s) = code c ∷ codes s

-- `unicode.ToLower` as far as a comparison with ASCII words can tell: of the code points above 127
-- only U+0130 and U+212A have an ASCII lower case, and the others stay above 127.
unfoldable pub lower : ℕ → ℕ
lower c =
    if leb 65 c && leb c 90
    then c + 32
    else if eqb c 0x130
    then 0x69
    else if eqb c 0x212a
    then 0x6b
    else c

-- `strings.ToLower`
unfoldable pub to_lower : String → List ℕ
unfolding lower
to_lower s = map lower (codes s)

unfoldable pub same : List ℕ → List ℕ → Bool
same [] [] = true
same [] (b ∷ bs) = false
same (a ∷ as') [] = false
same (a ∷ as') (b ∷ bs) = eqb a b && same as' bs

-- Is the word one of the `case` labels?
unfoldable pub one_of : List String → List ℕ → Bool
unfolding same
one_of [] w = false
one_of (label ∷ labels) w = same w (codes label) || one_of labels w

abbrev pub false_words : List String
false_words = "0" ∷ "false" ∷ "no" ∷ "off" ∷ "disable" ∷ "disabled" ∷ []

abbrev pub true_words : List String
true_words = "1" ∷ "true" ∷ "yes" ∷ "on" ∷ "enable" ∷ "enabled" ∷ []

abbrev pub bool_words : List String
bool_words =
    "0" ∷ "1" ∷ "false" ∷ "true" ∷ "no" ∷ "yes" ∷ "off" ∷ "on" ∷ "disable" ∷ "enable" ∷ "disabled"
    ∷ "enabled" ∷ []

unfoldable pub is_string_bool : String → Bool
is_string_bool str = one_of bool_words (to_lower str)

unfoldable pub is_string_bool_false : String → Bool
is_string_bool_false str = one_of false_words (to_lower str)

unfoldable pub is_string_bool_true : String → Bool
is_string_bool_true str = one_of true_words (to_lower str)

unfoldable pub cast_string_bool_to_01 : String → Bool → String
cast_string_bool_to_01 str default_value =
    if is_string_bool_true str
    then "1"
    else if is_string_bool_false str
    then "0"
    else if default_value
    then "1"
    else "0"

unfoldable pub cast_string_bool_to_string_true_false : String → Bool → String
cast_string_bool_to_string_true_false str default_value =
    if is_string_bool_true str
    then "true"
    else if is_string_bool_false str
    then "false"
    else if default_value
    then "true"
    else "false"
