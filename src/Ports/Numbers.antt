-- ===== src/Ports/Numbers.antt =====
-- Go's number conversions that ports go through: `strconv.Atoi`, `int32(i)` and sums of `int32`.
use Prim.Native.Char.{code}
use Prim.Native.String.{[] as empty, ◌∷◌ as ◌::◌}
use radondb_clickhouse_opera.Base.{
  ℕ, ◌+◌, ◌-◌, ◌*◌, ◌%◌, String, Bool, true, false, ◌&&◌, Option, none, some,
}
use radondb_clickhouse_opera.Base.Tests.{ltb, leb, eqb, if◌then◌else◌}
use radondb_clickhouse_opera.Base.Int.{ℤ, pos, negsuc, pos_part, neg_part}

-- 2 ^ 31, 2 ^ 32 and 2 ^ 63
abbrev pub int32_half : ℕ
int32_half = 2147483648

abbrev pub int32_mod : ℕ
int32_mod = 4294967296

abbrev pub int64_half : ℕ
int64_half = 9223372036854775808

-- the `int32` with the bit pattern `n`
unfoldable pub signed : ℕ → ℤ
signed n = if ltb n int32_half then pos n else negsuc (int32_mod - 1 - n)

-- `int32(i)` keeps the low 32 bits
unfoldable pub to_int32 : ℤ → ℤ
unfolding signed
to_int32 (pos n) = signed (n % int32_mod)
to_int32 (negsuc n) = signed (int32_mod - 1 - n % int32_mod)

-- a - b, as an integer
abbrev sub_ℕ : ℕ → ℕ → ℤ
sub_ℕ a b = if leb b a then pos (a - b) else negsuc (b - a - 1)

unfoldable pub add_int32 : ℤ → ℤ → ℤ
unfolding to_int32
add_int32 a b = to_int32 (sub_ℕ (pos_part a + pos_part b) (neg_part a + neg_part b))

-- the value of a text of decimal digits, with the digits before it
digits_value : String → ℕ → Option ℕ
digits_value empty n = some n
digits_value (c :: s) n =
    let rest = digits_value s (n * 10 + (code c - 48)) in
    if leb 48 (code c) && leb (code c) 57 then rest else none

-- one digit at least
number : String → Option ℕ
unfolding digits_value
number empty = none
number (c :: s) = digits_value (c :: s) 0

in_range : Bool → ℕ → Option ℤ
in_range negative n =
    if negative
    then (if leb n int64_half then some (sub_ℕ 0 n) else none)
    else if ltb n int64_half
    then some (pos n)
    else none

signed_number : Bool → Option ℕ → Option ℤ
unfolding in_range
signed_number negative none = none
signed_number negative (some n) = in_range negative n

-- `strconv.Atoi` for a 64-bit `int`; an error is `none`
unfoldable pub atoi : String → Option ℤ
unfolding number signed_number
atoi empty = none
atoi (c :: s) =
    if eqb (code c) b'-'
    then signed_number true (number s)
    else if eqb (code c) b'+'
    then signed_number false (number s)
    else signed_number false (number (c :: s))
