-- ===== src/Store/Session.antt =====
-- Backend/infra/postgres.go: FindPlayer, CreateSession, FindSession and RevokeSession.
pub mod Ended
use g_server.Common.{
  ℕ, ◌+◌, ◌*◌, Bool, true, false, ◌&&◌, Option, none, some, [], ◌∷◌, ◌++◌, String, ltb, find,
  update, ◌==◌, text_key, if◌then◌else◌,
}
use g_server.Domain.{Player, Session}
use g_server.Store.{
  Db, SessionRow, Query, Link, transact, pure, raise, select, or_raise, write, ◌>>=◌, no_rows,
  constraint, player_exists, seconds,
}

-- `… is null` on a timestamp.
abbrev pub is_null : Option ℕ → Bool
is_null none = true
is_null (some t) = false

abbrev pub is_session : String → SessionRow → Bool
is_session hash r = r.token_hash == hash

abbrev pub session_of : String → Db → Option SessionRow
session_of hash db = find (is_session hash) db.sessions

-- `revoked_at is null and expires_at > now()`.
abbrev pub is_open : ℕ → SessionRow → Bool
is_open now r = is_null r.revoked_at && ltb now r.expires_at

unfoldable pub find_player : Link → String → Query Player
find_player link username = transact link do
  row ← or_raise no_rows (← select (λ db. find (λ r. r.username == username) db.players))
  pure (record { id = row.player_id; password_hash = row.password_hash })

-- `token_hash` is unique.
unfoldable pub create_session : Link → String → String → ℕ → Query (Unit {0})
create_session link player hash now = transact link λ db. elim (session_of hash db) [
  | some _ ↦ raise constraint db
  | none ↦
      if player_exists player db
      then write
          (λ d. record d {
            sessions =
                d.sessions
                ++ record {
                  player_id = player;
                  token_hash = hash;
                  expires_at = now + seconds (15 * 60);
                  revoked_at = none;
                }
                  ∷ [];
          })
          db
      else raise constraint db
]

unfoldable pub find_session : Link → String → ℕ → Query Session
find_session link hash now = transact link do
  row ←
      or_raise no_rows (← select (λ db. find (λ r. is_session hash r && is_open now r) db.sessions))
  pure (record { player_id = row.player_id; token_hash = row.token_hash })

unfoldable pub revoke_session : Link → String → ℕ → Query (Unit {0})
revoke_session link hash now = transact link (
    write λ d. record d {
      sessions = update (is_session hash) (λ r. record r { revoked_at = some now }) d.sessions;
    })

unfoldable pub ping : Link → Query (Unit {0})
ping link = transact link (pure tt)
