-- ===== src/Util/Text/Laws.antt =====
-- The tests on Boolean texts beside each other, and the casts.
use radondb_clickhouse_opera.Base.{
  ℕ, String, ◌≡◌, refl, ◌↔◌, Bool, true, false, ◌&&◌, ◌||◌, List, [], ◌∷◌, ◌++◌, arith,
}
use radondb_clickhouse_opera.Base.Tests.{if◌then◌else◌}
use radondb_clickhouse_opera.Util.Text.{
  codes, to_lower, same, one_of, false_words, true_words, bool_words, is_string_bool,
  is_string_bool_false, is_string_bool_true, cast_string_bool_to_01,
  cast_string_bool_to_string_true_false,
}

pub same_iff : (a b : List ℕ) → (same a b ≡ true) ↔ (a ≡ b)
unfolding same
same_iff [] [] = (λ h. refl, λ h. refl)
same_iff [] (b ∷ bs) = (λ h. cc, λ h. cc)
same_iff (a ∷ r) [] = (λ h. cc, λ h. cc)
same_iff (a ∷ r) (b ∷ bs) = ground (arith, same_iff r bs)

one_of-cons :
    (u : String) (us : List String) (w : List ℕ)
    → one_of (u ∷ us) w ≡ (same w (codes u) || one_of us w)
unfolding one_of
one_of-cons u us w = refl

-- no label of the first list is in the second; every label is
abbrev none_in : List String → List String → Bool
none_in [] vs = true
none_in (u ∷ us) vs = if one_of vs (codes u) then false else none_in us vs

abbrev all_in : List String → List String → Bool
all_in [] vs = true
all_in (u ∷ us) vs = if one_of vs (codes u) then all_in us vs else false

one_of-none_in :
    (us vs : List String) (w : List ℕ)
    → none_in us vs ≡ true
    → one_of us w ≡ true
    → one_of vs w ≡ false
one_of-none_in [] vs w h k = unfold one_of in cc k
one_of-none_in (u ∷ us) vs w h k =
    ground (arith, one_of-cons u us w, same_iff w (codes u), one_of-none_in us vs w)

one_of-all_in :
    (us vs : List String) (w : List ℕ)
    → all_in us vs ≡ true
    → one_of us w ≡ true
    → one_of vs w ≡ true
one_of-all_in [] vs w h k = unfold one_of in cc k
one_of-all_in (u ∷ us) vs w h k =
    ground (arith, one_of-cons u us w, same_iff w (codes u), one_of-all_in us vs w)

one_of-append :
    (us vs : List String) (w : List ℕ) → one_of (us ++ vs) w ≡ (one_of us w || one_of vs w)
unfolding one_of
one_of-append [] vs w = refl
one_of-append (u ∷ us) vs w = ground (arith, one_of-append us vs w)

disjoint_words : none_in true_words false_words ≡ true
unfolding one_of
disjoint_words = refl

bool_words_split : all_in bool_words (true_words ++ false_words) ≡ true
unfolding one_of
bool_words_split = refl

bool_words_join : all_in (true_words ++ false_words) bool_words ≡ true
unfolding one_of
bool_words_join = refl

-- No text is both a true and a false text, and the Boolean texts are those that are one of them.
pub is_string_bool_split :
    (s : String)
    → ((is_string_bool_true s && is_string_bool_false s) ≡ false)
      × (is_string_bool s ≡ (is_string_bool_true s || is_string_bool_false s))
unfolding is_string_bool_true is_string_bool_false is_string_bool
is_string_bool_split s =
    let w = to_lower s in
    (
      ground (arith, one_of-none_in true_words false_words w disjoint_words),
      ground (
        arith,
        one_of-append true_words false_words w,
        one_of-all_in bool_words (true_words ++ false_words) w bool_words_split,
        one_of-all_in (true_words ++ false_words) bool_words w bool_words_join,
      ),
    )

words_true-false :
    (is_string_bool_true "true" ≡ true)
    × (is_string_bool_true "false" ≡ false)
    × (is_string_bool_false "false" ≡ true)
unfolding is_string_bool_true is_string_bool_false one_of to_lower
words_true-false = (refl, refl, refl)

words_01 :
    (is_string_bool_true "1" ≡ true)
    × (is_string_bool_true "0" ≡ false)
    × (is_string_bool_false "0" ≡ true)
unfolding is_string_bool_true is_string_bool_false one_of to_lower
words_01 = (refl, refl, refl)

-- A cast of a recognised text does not depend on the default, and a cast of any other text is the
-- default; casting the result again, with any default, changes nothing.
pub cast_string_bool_stable :
    (s : String) (d e : Bool)
    → (cast_string_bool_to_string_true_false s d ≡ (
        if is_string_bool s
        then (if is_string_bool_true s then "true" else "false")
        else if d
        then "true"
        else "false"))
      × (cast_string_bool_to_string_true_false (cast_string_bool_to_string_true_false s d) e
          ≡ cast_string_bool_to_string_true_false s d)
      × (cast_string_bool_to_01 (cast_string_bool_to_01 s d) e ≡ cast_string_bool_to_01 s d)
unfolding cast_string_bool_to_string_true_false cast_string_bool_to_01
cast_string_bool_stable s d e = (
  ground (arith, is_string_bool_split s),
  ground (arith, words_true-false),
  ground (arith, words_01),
)
