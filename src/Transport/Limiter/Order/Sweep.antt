-- ===== src/Transport/Limiter/Order/Sweep.antt =====
-- The sweep of the limiter's table, in whatever order it is ranged over.
use mathlib.Core.Quot
use mathlib.Core.Quot.{Quot, Quot-set}
use g_server.Common.{
  ℕ, Bool, true, false, Option, none, some, List, ◌∷◌, String, ◌≡◌, refl, sym, ap, ◌∙◌, ◌==◌,
  text_key, if◌then◌else◌,
}
use g_server.Transport.Limiter.{Windows, sweep, last, is_stale}
use g_server.Transport.Limiter.Order.{Swap, here, there, Table, table, put, tables}

put_comm :
    (k j : String) (v w : List ℕ) (q : Table)
    → (k == j) ≡ false
    → put k v (put j w q) ≡ put j w (put k v q)
put_comm k j v w q e =
    Quot.ind {β = λ q. put k v (put j w q) ≡ put j w (put k v q)} (λ q. Quot-set _ _)
      (λ ws. Quot.sound (here k j v w ws e)) q

-- One round of the sweep, on tables.
abbrev keep_unless : Bool → String → List ℕ → Table → Table
keep_unless stale k v q = if stale then q else put k v q

abbrev kept : ℕ → String → List ℕ → Option ℕ → Option Table → Option Table
kept now k v none rest = none
kept now k v (some t) none = none
kept now k v (some t) (some q) = some (keep_unless (is_stale now t) k v q)

keep_comm :
    (a b : Bool) (k j : String) (v w : List ℕ) (q : Table)
    → (k == j) ≡ false
    → keep_unless a k v (keep_unless b j w q) ≡ keep_unless b j w (keep_unless a k v q)
keep_comm true b k j v w q e = refl
keep_comm false true k j v w q e = refl
keep_comm false false k j v w q e = put_comm k j v w q e

kept_comm :
    (now : ℕ) (k j : String) (v w : List ℕ) (s t : Option ℕ) (rest : Option Table)
    → (k == j) ≡ false
    → kept now k v s (kept now j w t rest) ≡ kept now j w t (kept now k v s rest)
kept_comm now k j v w none none rest e = refl
kept_comm now k j v w none (some t) none e = refl
kept_comm now k j v w none (some t) (some q) e = refl
kept_comm now k j v w (some s) none none e = refl
kept_comm now k j v w (some s) none (some q) e = refl
kept_comm now k j v w (some s) (some t) none e = refl
kept_comm now k j v w (some s) (some t) (some q) e =
    ap (λ q. some q) (keep_comm (is_stale now s) (is_stale now t) k j v w q e)

sweep-kept :
    (now : ℕ) (k : String) (v : List ℕ) (ws : Windows)
    → tables (sweep now ((k, v) ∷ ws)) ≡ kept now k v (last v) (tables (sweep now ws))
unfolding sweep
sweep-kept now k v ws = one (last v) (sweep now ws)
  where
    one :
        (l : Option ℕ) (r : Option Windows)
        → tables (elim l [
          | none ↦ none
          | some t ↦ elim r [
            | none ↦ none
            | some rest ↦ some (if is_stale now t then rest else (k, v) ∷ rest)
          ]
        ])
          ≡ kept now k v l (tables r)
    one none r = refl
    one (some t) none = refl
    one (some t) (some ws) = two (is_stale now t)
      where
        two :
            (b : Bool)
            → tables (some (if b then ws else (k, v) ∷ ws)) ≡ some (keep_unless b k v (table ws))
        two true = refl
        two false = refl

pub sweep-Swap :
    (now : ℕ) {ws ws' : Windows} → Swap ws ws' → tables (sweep now ws) ≡ tables (sweep now ws')
sweep-Swap now (here k j v w ws e) =
    sweep-kept now k v ((j, w) ∷ ws)
    ∙ ap (kept now k v (last v)) (sweep-kept now j w ws)
    ∙ kept_comm now k j v w (last v) (last w) (tables (sweep now ws)) e
    ∙ ap (kept now j w (last w)) (sym (sweep-kept now k v ws))
    ∙ sym (sweep-kept now j w ((k, v) ∷ ws))
sweep-Swap now (there k v {ws} {ws'} s) =
    sweep-kept now k v ws
    ∙ ap (kept now k v (last v)) (sweep-Swap now s)
    ∙ sym (sweep-kept now k v ws')
