-- ===== src/Tests/Rates.antt =====
-- The rate limiter on two requests of one address, and the migration of versions.
use g_server.Common.{
  refl, [], ◌∷◌, true, none, arith, some, ◌≡◌, String, lookup, Bool, find, ℕ, insert, false, ◌&&◌,
  ltb,
}
use g_server.Transport.Limiter.{Windows, slot, sweep, last, drop_stale}
use g_server.Transport.Limiter.Decision.{
  Log, slot-IsLogged, granted, has_place, IsLogged, log_after,
}
use g_server.Transport.Limiter.Rate.{IsServed, starts, serves, IsServed-IsLogged}
use g_server.Store.{Db}
use g_server.Tests.Sample.{playing, ann_progress}
use g_server.Store.Version.Migration.{is_newer}
use g_server.Transport.Limiter.Sweep.{swept}

abbrev login_limit : String → ℕ
login_limit key = 1

abbrev one : Windows
one = ("login", 5 ∷ []) ∷ []

abbrev one_log : Log
one_log = ("login", 5) ∷ []

lets_in : slot "login" 1 5 [] ≡ some (true, one)
unfolding slot sweep last drop_stale lookup insert
lets_in = refl

-- Within the minute, and after it.
refuses : slot "login" 1 59000000 one ≡ some (false, one)
unfolding slot sweep last drop_stale lookup insert
refuses = refl

lets_in_again : slot "login" 1 60000005 one ≡ some (true, ("login", 60000005 ∷ []) ∷ [])
unfolding slot sweep last drop_stale lookup insert
lets_in_again = refl

one-IsServed : IsServed login_limit 5 one_log one
one-IsServed = serves "login" 5 true one starts (omega arith) lets_in

slot-IsLogged_example :
    (b : Bool) × (ws' : Windows) × (slot "login" 1 59000000 one ≡ some (b, ws'))
    × (b ≡ (has_place "login" (swept 59000000 one) && ltb (granted "login" 59000000 one_log) 1))
    × IsLogged 59000000 (log_after b "login" 59000000 one_log) ws'
slot-IsLogged_example =
    slot-IsLogged "login" 1 5 59000000 one_log one (IsServed-IsLogged login_limit one-IsServed)
      (omega arith)

-- A row of the first version.
abbrev old_rows : Db
old_rows = record playing { progress = record ann_progress { schema_version = 1 } ∷ [] }

no_newer : find is_newer old_rows.progress ≡ none
unfolding find
no_newer = refl
