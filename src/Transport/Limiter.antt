-- ===== src/Transport/Limiter.antt =====
-- Backend/transport/http.go: `Handler.slot`, the rate limiter. A key is a path and a client address;
-- its window holds the times of the requests that were let through.
pub mod Window
pub mod Sweep
pub mod Decision
pub mod Rate
pub mod Order
use g_server.Common.{
  ℕ, ◌-◌, Bool, true, false, Option, none, some, List, [], ◌∷◌, ◌++◌, String, leb, ltb, length,
  Dict, lookup, insert, if◌then◌else◌,
}
use g_server.Store.{seconds}

abbrev pub Windows : Type 0
Windows = Dict (List ℕ)

-- `now.Sub(t) >= time.Minute`; a time that is ahead of `now` is not stale.
abbrev pub is_stale : ℕ → ℕ → Bool
is_stale now t = leb (seconds 60) (now - t)

-- `v[len(v)-1]`, a panic where the window is empty.
unfoldable pub last : List ℕ → Option ℕ
last [] = none
last (t ∷ []) = some t
last (t ∷ u ∷ v) = last (u ∷ v)

-- The loop over the map that deletes the windows whose latest request is stale.
unfoldable pub sweep : ℕ → Windows → Option Windows
sweep now [] = some []
sweep now ((k, v) ∷ ws) = elim (last v) [
  | none ↦ none
  | some t ↦ elim (sweep now ws) [
    | none ↦ none
    | some rest ↦ some (if is_stale now t then rest else (k, v) ∷ rest)
  ]
]

unfoldable pub drop_stale : ℕ → List ℕ → List ℕ
drop_stale now [] = []
drop_stale now (t ∷ v) = let rest = drop_stale now v in if is_stale now t then rest else t ∷ v

abbrev pub table_size : ℕ
table_size = 2048

-- The window of the key, if it is in the table or the table has a place.
abbrev pub window_of : String → Windows → Option (List ℕ)
window_of key ws = elim (lookup key ws) [
  | some v ↦ some v
  | none ↦ if leb table_size (length ws) then none else some []
]

abbrev pub take_slot : String → ℕ → ℕ → Windows → List ℕ → Bool × Windows
take_slot key limit now ws v =
    if leb limit (length v) then (false, ws) else (true, insert key (v ++ now ∷ []) ws)

-- `none` is the panic of `last`.
unfoldable pub slot : String → ℕ → ℕ → Windows → Option (Bool × Windows)
unfolding sweep drop_stale
slot key limit now ws = elim (sweep now ws) [
  | none ↦ none
  | some swept ↦ elim (window_of key swept) [
    | none ↦ some (false, swept)
    | some v ↦ some (take_slot key limit now swept (drop_stale now v))
  ]
]
