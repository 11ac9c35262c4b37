-- ===== src/Tests/Calls.antt =====
-- A service over the PostgreSQL store, and a login.
use g_server.Common.{ℕ, ◌+◌, ◌*◌, Bool, false, String, ◌≡◌, refl, [], ◌∷◌, none, find}
use g_server.Tests.Sample.{lib, fresh}
use g_server.Store.{Link, up, ok}
use g_server.Store.Session.{find_player, create_session}
use g_server.Usecase.Stores.{postgres}
use g_server.Usecase.Calls.{login_call}
use g_server.Usecase.Calls.Postgres.{outcome}

abbrev steady : ℕ → Link
steady n = up

abbrev unlocked : String → Bool
unlocked id = false

logs_in :
    outcome (login_call lib (postgres lib steady unlocked 10) "Ann" "secret" "t" (0, fresh)) ≡ (
      ok ("t", "ann"),
      record fresh {
        sessions =
            record {
              player_id = "ann";
              token_hash = "t";
              expires_at = 10 + 900 * 1000000;
              revoked_at = none;
            }
            ∷ [];
      },
    )
unfolding login_call find_player create_session find
logs_in = refl
