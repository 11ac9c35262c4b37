-- ===== src/Transport/Number.antt =====
-- Backend/transport/http.go: `integer`, the test on a JSON number that was decoded into a float64,
-- and strconv.ParseUint on a header.
pub mod Bounds
use Prim.Native.Char.{Char, code}
use Prim.Native.String
use g_server.Common.{
  ℕ, ◌+◌, ◌-◌, ◌*◌, ◌/◌, ◌%◌, ◌^◌, ℤ, pos, negsuc, Bool, true, false, not, ◌&&◌, ◌||◌, Option, none,
  some, String, leb, ltb, ◌==◌, number_key, if◌then◌else◌,
}

-- A float64: a finite one is ± m · 2 ^ e.
pub data Float : Type 0 where
  nan : Float
  infinite : (negative : Bool) → Float
  finite : (negative : Bool) (m : ℕ) (e : ℤ) → Float

-- m · 2 ^ e, where it is a whole number.
abbrev pub whole : ℕ → ℤ → Option ℕ
whole m (pos k) = some (m * 2 ^ k)
whole m (negsuc k) = if m % 2 ^ (k + 1) == 0 then some (m / 2 ^ (k + 1)) else none

-- math.MaxInt64 as a float64 is rounded to 2 ^ 63.
abbrev pub max_float : ℕ
max_float = 2 ^ 63

abbrev pub is_in_range : Bool → Option ℕ → Bool
is_in_range negative none = false
is_in_range negative (some n) = (not negative || n == 0) && leb n max_float

unfoldable pub integer : Float → Bool
integer nan = false
integer (infinite negative) = false
integer (finite negative m e) = is_in_range negative (whole m e)

abbrev pub value_or_zero : Option ℕ → ℕ
value_or_zero none = 0
value_or_zero (some n) = n

abbrev pub min_int64 : ℤ
min_int64 = negsuc (2 ^ 63 - 1)

-- 2 ^ 63 fits no int64: what Go makes of it depends on the processor, and is the least int64 on
-- amd64.
abbrev pub wrapped : ℕ → ℤ
wrapped n = if ltb n max_float then pos n else min_int64

-- `int64(x)` after the test.
unfoldable pub int64 : Float → ℤ
int64 nan = min_int64
int64 (infinite negative) = min_int64
int64 (finite negative m e) = wrapped (value_or_zero (whole m e))

abbrev pub is_digit : ℕ → Bool
is_digit c = leb b'0' c && leb c b'9'

-- The number that decimal digits spell after `n`.
unfoldable pub digits_from : ℕ → String → Option ℕ
digits_from n String.[] = some n
digits_from n (String.◌∷◌ c s) =
    let rest = digits_from (n * 10 + (code c - b'0')) s in if is_digit (code c) then rest else none

abbrev pub digits : String → Option ℕ
digits String.[] = none
digits (String.◌∷◌ c s) = digits_from 0 (String.◌∷◌ c s)

abbrev pub below : ℕ → Option ℕ → Option ℕ
below bound none = none
below bound (some n) = if ltb n bound then some n else none

-- In base 10 with 64 bits.
unfoldable pub parse_uint : String → Option ℕ
unfolding digits_from
parse_uint s = below (2 ^ 64) (digits s)
