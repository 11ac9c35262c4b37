-- ===== src/Transport/Limiter/Order/Decisions.antt =====
-- `Handler.slot` on a table, and the decisions over a sequence of calls.
use mathlib.Core.Quot
use mathlib.Core.Quot.{Quot, Quot-set}
use g_server.Common.{
  ℕ, Bool, true, false, Option, none, some, List, [], ◌∷◌, ◌++◌, String, ◌≡◌, refl, sym, ap, ◌∙◌,
  arith, length, text_key, leb, Bool-cases, inl, inr,
}
use g_server.Transport.Limiter.{Windows, sweep, window_of, take_slot, slot, drop_stale}
use g_server.Transport.Limiter.Order.Sweep.{sweep-Swap}
use g_server.Transport.Limiter.Order.{
  Swap, Table, table, tables, decided, lookup-Swap, length-Swap, insert-Swap, Outcome-set,
}

-- What follows the sweep.
abbrev admitted : String → ℕ → ℕ → Windows → Option (List ℕ) → Option (Bool × Windows)
admitted key limit now ws none = some (false, ws)
admitted key limit now ws (some v) = some (take_slot key limit now ws (drop_stale now v))

abbrev after_sweep : String → ℕ → ℕ → Option Windows → Option (Bool × Windows)
after_sweep key limit now none = none
after_sweep key limit now (some ws) = admitted key limit now ws (window_of key ws)

slot-after_sweep :
    (key : String) (limit now : ℕ) (ws : Windows)
    → slot key limit now ws ≡ after_sweep key limit now (sweep now ws)
unfolding slot
slot-after_sweep key limit now ws = by_sweep (sweep now ws)
  where
    by_window :
        (ws : Windows) (o : Option (List ℕ))
        → elim o [
          | none ↦ some (false, ws)
          | some v ↦ some (take_slot key limit now ws (drop_stale now v))
        ]
          ≡ admitted key limit now ws o
    by_window ws none = refl
    by_window ws (some v) = refl

    by_sweep :
        (r : Option Windows)
        → elim r [
          | none ↦ none
          | some swept ↦ elim (window_of key swept) [
            | none ↦ some (false, swept)
            | some v ↦ some (take_slot key limit now swept (drop_stale now v))
          ]
        ]
          ≡ after_sweep key limit now r
    by_sweep none = refl
    by_sweep (some ws) = by_window ws (window_of key ws)

take_slot-Swap :
    (key : String) (limit now : ℕ) (v : List ℕ) {ws ws' : Windows}
    → Swap ws ws'
    → decided (some (take_slot key limit now ws v)) ≡ decided (some (take_slot key limit now ws' v))
take_slot-Swap key limit now v s = elim (Bool-cases (leb limit (length v))) [
  | inl full ↦ rw full (ap (λ (q : Table). some (false, q)) (Quot.sound s))
  | inr free ↦ rw free (ap (λ (q : Table). some (true, q)) (insert-Swap key (v ++ now ∷ []) s))
]

window_of-Swap :
    (key : String) {ws ws' : Windows} → Swap ws ws' → window_of key ws ≡ window_of key ws'
window_of-Swap key s = ground (arith, lookup-Swap key s, length-Swap s)

admitted-Swap :
    (key : String) (limit now : ℕ) (o : Option (List ℕ)) {ws ws' : Windows}
    → Swap ws ws'
    → decided (admitted key limit now ws o) ≡ decided (admitted key limit now ws' o)
admitted-Swap key limit now none s = ap (λ (q : Table). some (false, q)) (Quot.sound s)
admitted-Swap key limit now (some v) s = take_slot-Swap key limit now (drop_stale now v) s

admit-Swap :
    (key : String) (limit now : ℕ) (ws ws' : Windows)
    → Swap ws ws'
    → decided (after_sweep key limit now (some ws)) ≡ decided (after_sweep key limit now (some ws'))
admit-Swap key limit now ws ws' s =
    admitted-Swap key limit now (window_of key ws) s
    ∙ ap (λ o. decided (admitted key limit now ws' o)) (window_of-Swap key s)

abbrev admit_table : String → ℕ → ℕ → Option Table → Option (Bool × Table)
admit_table key limit now none = none
admit_table key limit now (some q) =
    Quot.lift Outcome-set (λ ws. decided (after_sweep key limit now (some ws)))
      (admit-Swap key limit now) q

admit_table-tables :
    (key : String) (limit now : ℕ) (r : Option Windows)
    → decided (after_sweep key limit now r) ≡ admit_table key limit now (tables r)
admit_table-tables key limit now none = refl
admit_table-tables key limit now (some ws) = refl

slot-Swap :
    (key : String) (limit now : ℕ) (ws ws' : Windows)
    → Swap ws ws'
    → decided (slot key limit now ws) ≡ decided (slot key limit now ws')
slot-Swap key limit now ws ws' s =
    let shown = λ (ws : Windows).
      ap decided (slot-after_sweep key limit now ws)
      ∙ admit_table-tables key limit now (sweep now ws) in
    shown ws ∙ ap (admit_table key limit now) (sweep-Swap now s) ∙ sym (shown ws')

-- `slot`, on a table.
abbrev slot_of : String → ℕ → ℕ → Table → Option (Bool × Table)
slot_of key limit now =
    Quot.lift Outcome-set (λ ws. decided (slot key limit now ws)) (slot-Swap key limit now)

-- A call of the limiter: the key, its limit and the time.
abbrev pub Call : Type 0
Call = String × ℕ × ℕ

-- The decisions over a sequence of calls. Each call finds the map's entries in an order of its own.
pub data Decides : Windows → List Call → List Bool → Type 0 where
  stop : {ws : Windows} → Decides ws [] []
  call :
      {ws : Windows} (key : String) (limit now : ℕ) (found next : Windows) (b : Bool)
      {calls : List Call} {bs : List Bool}
      → table ws ≡ table found
      → slot key limit now found ≡ some (b, next)
      → Decides next calls bs
      → Decides ws ((key, limit, now) ∷ calls) (b ∷ bs)

abbrev decision_or : Bool → Option (Bool × Table) → Bool
decision_or b none = b
decision_or b (some (c, q)) = c

abbrev table_or : Table → Option (Bool × Table) → Table
table_or q none = q
table_or q (some (c, r)) = r

decided-some :
    (r r' : Option (Bool × Windows)) (b b' : Bool) (ws ws' : Windows)
    → decided r ≡ decided r'
    → r ≡ some (b, ws)
    → r' ≡ some (b', ws')
    → (b ≡ b') × (table ws ≡ table ws')
decided-some r r' b b' ws ws' h e e' =
    let k : some (b, table ws) ≡ some (b', table ws') = ap decided (sym e) ∙ h ∙ ap decided e' in
    (ap (decision_or b) k, ap (table_or (table ws)) k)

-- The limiter's decisions do not depend on the order in which Go ranges over its map, at any of
-- the calls: from the same entries, a sequence of calls has one sequence of decisions.
pub decides_in_any_order :
    {ws ws' : Windows} {calls : List Call} {bs bs' : List Bool}
    → table ws ≡ table ws'
    → Decides ws calls bs
    → Decides ws' calls bs'
    → bs ≡ bs'
decides_in_any_order same stop stop = refl
decides_in_any_order same (call key limit now found next b {bs = bs} f s rest)
      (call _ _ _ found' next' b' f' s' rest') =
    let (e, t) =
      decided-some (slot key limit now found) (slot key limit now found') b b' next next'
        (ap (slot_of key limit now) (sym f ∙ same ∙ f')) s s' in
    ap (λ c. c ∷ bs) e ∙ ap (λ l. b' ∷ l) (decides_in_any_order t rest rest')
