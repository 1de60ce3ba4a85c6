-- ===== src/Util/Text/Tests.antt =====
-- Tests of the Boolean texts.
use radondb_clickhouse_opera.Base.{◌≡◌, refl, true, false}
use radondb_clickhouse_opera.Util.Text.{
  to_lower, one_of, is_string_bool_true, is_string_bool_false, cast_string_bool_to_01,
  cast_string_bool_to_string_true_false,
}

mixed_case : cast_string_bool_to_string_true_false "eNaBleD" false ≡ "true"
unfolding cast_string_bool_to_string_true_false is_string_bool_true one_of to_lower
mixed_case = refl

unknown_word : cast_string_bool_to_01 "maybe" true ≡ "1"
unfolding cast_string_bool_to_01 is_string_bool_true is_string_bool_false one_of to_lower
unknown_word = refl
