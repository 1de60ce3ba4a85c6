-- ===== src/Util/Arrays.antt =====
-- pkg/util/array.go: slices of texts used as sets.
pub mod Laws
mod Tests
use radondb_clickhouse_opera.Base.{
  String, Bool, true, false, Option, none, some, List, [], ◌∷◌, ◌++◌, ◌==◌,
}
use radondb_clickhouse_opera.Base.Tests.{if◌then◌else◌}
use radondb_clickhouse_opera.Base.Lists.{length, replicate}

unfoldable pub in_array : String → List String → Bool
in_array needle [] = false
in_array needle (item ∷ haystack) =
    let rest = in_array needle haystack in if item == needle then true else rest

unfoldable pub merge_string_arrays : List String → List String → List String
merge_string_arrays dst [] = dst
merge_string_arrays dst (str ∷ src) =
    merge_string_arrays (if in_array str dst then dst else dst ++ (str ∷ [])) src

remove_loop : String → List String → List String → List String
remove_loop needle [] result = result
remove_loop needle (item ∷ haystack) result =
    remove_loop needle haystack (if item == needle then result else result ++ (item ∷ []))

unfoldable pub remove_from_array : String → List String → List String
unfolding remove_loop
remove_from_array needle haystack = remove_loop needle haystack []

-- a row gives its first cell to the first column, and its second cell, if any, to the second;
-- the read of the first cell of an empty row panics
unzip_loop : List (List String) → List String → List String → Option (List String × List String)
unzip_loop [] col1 col2 = some (col1, col2)
unzip_loop ([] ∷ rows) col1 col2 = none
unzip_loop ((a ∷ []) ∷ rows) col1 col2 = unzip_loop rows (col1 ++ (a ∷ [])) col2
unzip_loop ((a ∷ b ∷ cells) ∷ rows) col1 col2 =
    unzip_loop rows (col1 ++ (a ∷ [])) (col2 ++ (b ∷ []))

-- `make([]string, len(slice))` makes slices that hold `len(slice)` empty texts, and the loop
-- appends behind them
unfoldable pub unzip : List (List String) → Option (List String × List String)
unfolding unzip_loop
unzip slice = unzip_loop slice (replicate (length slice) "") (replicate (length slice) "")
