-- ===== src/Common/Table.antt =====
-- A table as the list of its rows: the row that a test selects, an update of the selected rows,
-- and their deletion.
use Prim.Native.Nat.{ℕ, suc, ◌+◌}
use mathlib.Core.Path.{◌≡◌, refl}
use mathlib.Core.Bool.{Bool, true, false}
use mathlib.Core.Option.{Option, none, some}
use mathlib.Core.Option
use mathlib.Core.List.{List, [], ◌∷◌, ◌++◌}
use native.Mathlib.Omega.{arith}
use mathlib.Core.Logic.{inl, inr}
use g_server.Common.Tests.{Bool-cases, if◌then◌else◌}

module _ {ℓ} {A : Type ℓ} where
  abbrev pub length : List A → ℕ
  length [] = 0
  length (x ∷ xs) = suc (length xs)

  unfoldable pub find : (A → Bool) → List A → Option A
  find p [] = none
  find p (x ∷ xs) = if p x then some x else find p xs

  unfoldable pub update : (A → Bool) → (A → A) → List A → List A
  update p f [] = []
  update p f (x ∷ xs) = (if p x then f x else x) ∷ update p f xs

  unfoldable pub remove : (A → Bool) → List A → List A
  remove p [] = []
  remove p (x ∷ xs) = if p x then remove p xs else x ∷ remove p xs

  unfoldable pub count : (A → Bool) → List A → ℕ
  count p [] = 0
  count p (x ∷ xs) = (if p x then 1 else 0) + count p xs

  -- Rows keep the answer to `q` under `f`, so a search by `q` finds the old row, changed by `f`
  -- if it was selected.
  pub find-update :
      (q p : A → Bool) (f : A → A) (xs : List A)
      → ((x : A) → q (f x) ≡ q x)
      → find q (update p f xs) ≡ Option.map (λ x. if p x then f x else x) (find q xs)
  unfolding find update
  find-update q p f [] h = refl
  find-update q p f (x ∷ xs) h = ground (arith, h x, find-update q p f xs h)

  pub find-append_new :
      (q : A → Bool) (xs : List A) (x : A)
      → find q xs ≡ none
      → q x ≡ true
      → find q (xs ++ x ∷ []) ≡ some x
  unfolding find
  find-append_new q [] x h e = ground arith
  find-append_new q (y ∷ xs) x h e = ground (arith, find-append_new q xs x)

  pub find-append_other :
      (q : A → Bool) (xs : List A) (x : A) → q x ≡ false → find q (xs ++ x ∷ []) ≡ find q xs
  unfolding find
  find-append_other q [] x e = ground arith
  find-append_other q (y ∷ xs) x e = ground (arith, find-append_other q xs x)

  -- An insert does not hide a row that was found before.
  pub find-append_old :
      (q : A → Bool) (xs : List A) (x : A) {r : A}
      → find q xs ≡ some r
      → find q (xs ++ x ∷ []) ≡ some r
  unfolding find
  find-append_old q [] x h = ground arith
  find-append_old q (y ∷ xs) x {r} h = ground (arith, find-append_old q xs x {r = r})

  pub find_holds : (q : A → Bool) (xs : List A) {x : A} → find q xs ≡ some x → q x ≡ true
  unfolding find
  find_holds q [] h = ground arith
  find_holds q (y ∷ xs) {x} h = ground (arith, find_holds q xs {x = x})

  pub find-remove_self : (q : A → Bool) (xs : List A) → find q (remove q xs) ≡ none
  unfolding find remove
  find-remove_self q [] = refl
  find-remove_self q (y ∷ xs) = ground (arith, find-remove_self q xs)

  pub find-remove_other :
      (q p : A → Bool) (xs : List A)
      → ((x : A) → p x ≡ true → q x ≡ false)
      → find q (remove p xs) ≡ find q xs
  unfolding find remove
  find-remove_other q p [] h = refl
  find-remove_other q p (y ∷ xs) h = ground (arith, h y, find-remove_other q p xs h)

  -- A deletion that takes the newest row leaves none, where it was the only one.
  pub find-remove-append :
      (q p : A → Bool) (xs : List A) (y : A)
      → find q xs ≡ none
      → p y ≡ true
      → find q (remove p (xs ++ y ∷ [])) ≡ none
  unfolding find remove
  find-remove-append q p [] y h e = ground arith
  find-remove-append q p (x ∷ xs) y h e = ground (arith, find-remove-append q p xs y)

  -- A row that another search finds is found by a test that it passes.
  pub find-find :
      (q p : A → Bool) (xs : List A) {x : A}
      → find q xs ≡ some x
      → p x ≡ true
      → (y : A) × (find p xs ≡ some y)
  unfolding find
  find-find q p [] h e = absurd (ground arith)
  find-find q p (y ∷ xs) {x} h e = elim (Bool-cases (p y)) [
    | inl here ↦ (y, ground (arith, here))
    | inr there ↦
        let (z, found) = find-find q p xs {x = x} (ground (arith, h, e, there)) e in
        (z, ground (arith, there, found))
  ]
