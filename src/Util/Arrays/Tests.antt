-- ===== src/Util/Arrays/Tests.antt =====
-- Tests of the slice helpers.
use radondb_clickhouse_opera.Base.{◌≡◌, refl, [], ◌∷◌}
use radondb_clickhouse_opera.Util.Arrays.{in_array, merge_string_arrays, remove_from_array}

merge_run : merge_string_arrays ("a" ∷ []) ("b" ∷ "a" ∷ "b" ∷ []) ≡ "a" ∷ "b" ∷ []
unfolding merge_string_arrays in_array
merge_run = refl

remove_run : remove_from_array "a" ("a" ∷ "b" ∷ "a" ∷ []) ≡ "b" ∷ []
unfolding remove_from_array
remove_run = refl
