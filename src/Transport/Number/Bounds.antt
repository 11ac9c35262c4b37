-- ===== src/Transport/Number/Bounds.antt =====
-- Backend/transport/http.go: which JSON numbers `integer` lets through.
use native.Mathlib.Nat.{mul-div_cancel, mod-add-div', mul-mod_left, one-le-pow}
use g_server.Common.{
  ℕ, ◌*◌, ◌^◌, ◌+◌, ◌/◌, ◌%◌, ◌≤◌, ◌<◌, pos, negsuc, Bool, true, false, not, ◌&&◌, ◌||◌, ◌≡◌, ◌↔◌,
  arith, ◌==◌, number_key, if◌then◌else◌, inl, inr, ap, ℤ, Option-cases, sym, ◌∙◌, some,
}
use g_server.Transport.Number.{
  Float, nan, infinite, finite, integer, int64, max_float, whole, min_int64,
}

-- Whether a float64 is this natural number.
abbrev pub is_value : Float → ℕ → Bool
is_value nan n = false
is_value (infinite negative) n = false
is_value (finite negative m (pos k)) n = n == m * 2 ^ k && (not negative || n == 0)
is_value (finite negative m (negsuc k)) n = n * 2 ^ (k + 1) == m && (not negative || n == 0)

power-pos : (k : ℕ) → 0 < 2 ^ k
power-pos k = one-le-pow k 2 (omega arith)

-- A fraction is whole just where it is some multiple.
divides : (m d : ℕ) → 0 < d → (m % d == 0) ≡ true → m / d * d ≡ m
divides m d h e = ground (arith, e, mod-add-div' m d)

of_multiple : (n m d : ℕ) → 0 < d → n * d ≡ m → (m % d ≡ 0) × (m / d ≡ n)
of_multiple n m d h e =
    (ap (λ x. x % d) (sym e) ∙ mul-mod_left n d, ap (λ x. x / d) (sym e) ∙ mul-div_cancel n h)

whole-value :
    (negative : Bool) (m : ℕ) (e : ℤ) {n : ℕ}
    → whole m e ≡ some n
    → (not negative || n == 0) ≡ true
    → is_value (finite negative m e) n ≡ true
whole-value negative m (pos k) h z = ground (arith, h, z)
whole-value negative m (negsuc k) h z =
    ground (arith, h, z, divides m (2 ^ (k + 1)) (power-pos (k + 1)))

value-whole :
    (negative : Bool) (m : ℕ) (e : ℤ) (n : ℕ)
    → is_value (finite negative m e) n ≡ true
    → (whole m e ≡ some n) × ((not negative || n == 0) ≡ true)
value-whole negative m (pos k) n h = ground (arith, h)
value-whole negative m (negsuc k) n h =
    ground (arith, h, of_multiple n m (2 ^ (k + 1)) (power-pos (k + 1)))

-- `integer` lets a number through just where it is a natural number of at most 2 ^ 63, and `int64`
-- gives that number, but the least int64 for 2 ^ 63, which is let through and fits no int64.
pub integer_iff :
    (x : Float)
    → (integer x ≡ true) ↔ (
        (n : ℕ) × (is_value x n ≡ true)
        × (n ≤ max_float)
        × (int64 x ≡ (if n == max_float then min_int64 else pos n)))
unfolding integer int64
integer_iff nan = (λ h. absurd (ground (arith, h)), λ v. absurd (ground (arith, v.1)))
integer_iff (infinite negative) =
    (λ h. absurd (ground (arith, h)), λ v. absurd (ground (arith, v.1)))
integer_iff (finite negative m e) = (
  λ h. elim (Option-cases (whole m e)) [
    | inl none_whole ↦ absurd (ground (arith, h, none_whole))
    | inr (n, found) ↦ (
      n,
      whole-value negative m e found (ground (arith, h, found)),
      ground (arith, h, found),
      ground (arith, found),
    )
  ],
  λ v. let (found, z) = value-whole negative m e v.0 v.1 in ground (arith, found, z, v.2),
)
