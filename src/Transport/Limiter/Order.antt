-- ===== src/Transport/Limiter/Order.antt =====
-- Go ranges over the limiter's map in an order of its own: a table is its entries in any order.
pub mod Sweep
pub mod Decisions
use mathlib.Core.Quot
use mathlib.Core.Quot.{Quot, Quot-set}
use g_server.Common.{
  ℕ, suc, Bool, true, false, Option, none, some, List, [], ◌∷◌, ◌++◌, String, ◌≡◌, refl, sym, ap,
  ◌∙◌, arith, length, lookup, insert, ◌==◌, text_key, text_iff, leb, ltb, if◌then◌else◌, Bool-cases,
  Option-cases, inl, inr,
}
use g_server.Transport.Limiter.{
  Windows, sweep, last, is_stale, window_of, take_slot, slot, drop_stale, table_size,
}

-- Two entries of different keys change places.
pub data Swap : Windows → Windows → Type 0 where
  here :
      (k j : String) (v w : List ℕ) (ws : Windows)
      → (k == j) ≡ false
      → Swap ((k, v) ∷ (j, w) ∷ ws) ((j, w) ∷ (k, v) ∷ ws)
  there :
      (k : String) (v : List ℕ) {ws ws' : Windows} → Swap ws ws' → Swap ((k, v) ∷ ws) ((k, v) ∷ ws')

abbrev pub Table : Type 0
Table = Quot Swap

abbrev pub table : Windows → Table
table ws = Quot.mk ws

-- An entry more.
abbrev pub put : String → List ℕ → Table → Table
put k v = Quot.lift Quot-set (λ ws. Quot.mk ((k, v) ∷ ws)) (λ ws ws' s. Quot.sound (there k v s))

pub lookup-Swap : (key : String) {ws ws' : Windows} → Swap ws ws' → lookup key ws ≡ lookup key ws'
unfolding lookup
lookup-Swap key (here k j v w ws e) =
    ground (arith, e, text_iff k key, text_iff j key, text_iff k j)
lookup-Swap key (there k v s) = ground (arith, lookup-Swap key s)

pub length-Swap : {ws ws' : Windows} → Swap ws ws' → length ws ≡ length ws'
length-Swap (here k j v w ws e) = refl
length-Swap (there k v s) = ap suc (length-Swap s)

pub insert-Swap :
    (key : String) (u : List ℕ) {ws ws' : Windows}
    → Swap ws ws'
    → table (insert key u ws) ≡ table (insert key u ws')
unfolding insert
insert-Swap key u (here k j v w ws e) = elim (Bool-cases (k == key)) [
  | inl a ↦ elim (Bool-cases (j == key)) [
    | inl b ↦ absurd (ground (arith, a, b, e, text_iff k key, text_iff j key, text_iff k j))
    | inr b ↦
        rw (a, b)
          (Quot.sound (here key j u w ws (ground (arith, b, text_iff j key, text_iff key j))))
  ]
  | inr a ↦ elim (Bool-cases (j == key)) [
    | inl b ↦ rw (a, b) (Quot.sound (here k key v u ws a))
    | inr b ↦ rw (a, b) (Quot.sound (here k j v w (insert key u ws) e))
  ]
]
insert-Swap key u (there k v s) = elim (Bool-cases (k == key)) [
  | inl a ↦ rw a (Quot.sound (there key u s))
  | inr a ↦ rw a (ap (put k v) (insert-Swap key u s))
]

abbrev pub tables : Option Windows → Option Table
tables none = none
tables (some ws) = some (table ws)

abbrev pub decided : Option (Bool × Windows) → Option (Bool × Table)
decided none = none
decided (some (b, ws)) = some (b, table ws)

pub Outcome-set : IsSet (Option (Bool × Table))
Outcome-set = hlevel (Quot-set {r = Swap})
