-- ===== src/Common/Count.antt =====
-- Counting the rows of a table under an update, an insert and a search.
use Prim.Native.Nat.{◌+◌, ◌≤◌}
use mathlib.Core.Path.{◌≡◌, refl}
use mathlib.Core.Bool.{Bool, true, false, ◌&&◌}
use mathlib.Core.Option.{none, some}
use mathlib.Core.List.{List, [], ◌∷◌, ◌++◌}
use native.Mathlib.Omega.{arith}
use g_server.Common.Tests.{if◌then◌else◌}
use g_server.Common.Table.{find, update, count}

module _ {ℓ} {A : Type ℓ} where
  -- An update moves the selected rows in and out of what is counted.
  pub count-update :
      (q p : A → Bool) (f : A → A) (xs : List A)
      → count q (update p f xs) + count (λ x. p x && q x) xs
        ≡ count q xs + count (λ x. p x && q (f x)) xs
  unfolding count update
  count-update q p f [] = refl
  count-update q p f (x ∷ xs) = ground (arith, count-update q p f xs)

  pub count-append :
      (q : A → Bool) (xs : List A) (x : A)
      → count q (xs ++ x ∷ []) ≡ count q xs + (if q x then 1 else 0)
  unfolding count
  count-append q [] x = ground arith
  count-append q (y ∷ xs) x = ground (arith, count-append q xs x)

  pub count-le :
      (q p : A → Bool) (xs : List A) → ((x : A) → q x ≡ true → p x ≡ true) → count q xs ≤ count p xs
  unfolding count
  count-le q p [] h = omega arith
  count-le q p (x ∷ xs) h = ground (arith, h x, count-le q p xs h)

  pub count-none : (q : A → Bool) (xs : List A) → find q xs ≡ none → count q xs ≡ 0
  unfolding find count
  count-none q [] h = refl
  count-none q (x ∷ xs) h = ground (arith, count-none q xs)

  -- Where one row at most is selected, a count among the selected asks that row alone.
  pub count_single :
      (p q : A → Bool) (xs : List A) {x : A}
      → count p xs ≤ 1
      → find p xs ≡ some x
      → count (λ y. p y && q y) xs ≡ (if q x then 1 else 0)
  unfolding find count
  count_single p q [] h e = absurd (ground arith)
  count_single p q (y ∷ xs) {x} h e =
      ground
        (arith, count_single p q xs {x = x}, count-le (λ z. p z && q z) p xs (λ z k. ground arith))

  pub count-false : (xs : List A) → count (λ x. false) xs ≡ 0
  unfolding count
  count-false [] = refl
  count-false (x ∷ xs) = omega (arith, count-false xs)
