-- ===== src/Tests/Order.antt =====
-- Two orders of the limiter's map.
use g_server.Common.{Bool, false, [], ◌∷◌, List, ◌≡◌, refl, lookup, insert, sym}
use mathlib.Core.Quot
use g_server.Transport.Limiter.{Windows, slot, sweep, last, drop_stale}
use g_server.Transport.Limiter.Order.{table, here}
use g_server.Transport.Limiter.Order.Decisions.{Decides, call, stop, decides_in_any_order}

abbrev one_way : Windows
one_way = ("a", 5 ∷ []) ∷ ("b", 6 ∷ []) ∷ []

abbrev other_way : Windows
other_way = ("b", 6 ∷ []) ∷ ("a", 5 ∷ []) ∷ []

same_entries : table one_way ≡ table other_way
same_entries = Quot.sound (here "a" "b" (5 ∷ []) (6 ∷ []) [] refl)

full_one_way : Decides one_way (("a", 1, 7) ∷ []) (false ∷ [])
unfolding slot sweep last drop_stale lookup insert
full_one_way = call "a" 1 7 one_way one_way false refl refl stop

full_other_way : Decides other_way (("a", 1, 7) ∷ []) (false ∷ [])
unfolding slot sweep last drop_stale lookup insert
full_other_way = call "a" 1 7 one_way one_way false (sym same_entries) refl stop

abbrev refused : List Bool
refused = false ∷ []

decides_in_any_order_example : refused ≡ refused
decides_in_any_order_example = decides_in_any_order same_entries full_one_way full_other_way
