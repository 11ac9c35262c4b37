-- ===== src/Store/Lease.antt =====
-- Backend/infra/postgres.go: AcquireSession, RenewSession and ReleaseSession. A lease gives one room
-- the right to write a player's progress, under a fencing token.
pub mod Grant
pub mod Use
pub mod Fencing
use g_server.Common.{
  ℕ, ◌+◌, Bool, ◌&&◌, not, Option, none, some, [], ◌∷◌, ◌++◌, String, ltb, leb, find, update,
  remove, ◌==◌, number_key, text_key, if◌then◌else◌,
}
use g_server.Domain.{SessionLease}
use g_server.Store.{
  Db, ProgressRow, Query, Link, transact, pure, raise, raise_if, select, or_raise, write, ◌>>=◌,
  ◌>>◌, no_rows, constraint, add_within, max_bigint, player_exists, seconds,
}
use g_server.Store.Version.{progress_schema_version, progress_of}

abbrev pub is_lease_of : String → SessionLease → Bool
is_lease_of player l = l.player_id == player

abbrev pub lease_of : String → Db → Option SessionLease
lease_of player db = find (is_lease_of player) db.leases

abbrev pub new_progress : String → ProgressRow
new_progress player = record {
  player_id = player;
  schema_version = progress_schema_version;
  revision = 0;
  inventory = [];
  equipment = [];
  unlocks = [];
  quests = [];
}

-- `insert into player_progress … on conflict(player_id) do nothing`.
unfoldable pub ensure_progress : String → Query (Unit {0})
ensure_progress player db = elim (progress_of player db) [
  | some row ↦ pure tt db
  | none ↦
      if player_exists player db
      then write (λ d. record d { progress = d.progress ++ new_progress player ∷ [] }) db
      else raise constraint db
]

unfoldable pub insert_lease : String → String → ℕ → Query SessionLease
insert_lease player room now db =
    let lease : SessionLease = record {
      player_id = player;
      room_id = room;
      fencing_token = 1;
      lease_expires_at = now + seconds 30;
    } in
    if player_exists player db
    then (write (λ d. record d { leases = d.leases ++ lease ∷ [] }) >> pure lease) db
    else raise constraint db

-- The `do update` part: the next token, this room, a new term.
unfoldable pub take_over : String → String → ℕ → SessionLease → Query SessionLease
take_over player room now old = do
  token ← add_within max_bigint old.fencing_token 1
  let take = λ (l : SessionLease). record l {
    room_id = room;
    fencing_token = token;
    lease_expires_at = now + seconds 30;
  }
  write (λ d. record d { leases = update (is_lease_of player) take d.leases })
  pure (take old)

-- `insert into active_player_session … on conflict(player_id) do update … where lease_expires_at <=
-- now() returning …`: a row that is still live gives no row.
unfoldable pub upsert_lease : String → String → ℕ → Option SessionLease → Query SessionLease
unfolding insert_lease take_over
upsert_lease player room now none = insert_lease player room now
upsert_lease player room now (some old) =
    if leb old.lease_expires_at now then take_over player room now old else raise no_rows

unfoldable pub acquire_session : Link → String → String → ℕ → Query SessionLease
unfolding ensure_progress upsert_lease
acquire_session link player room now =
    transact link
      do ensure_progress player; old ← select (lease_of player); upsert_lease player room now old

-- The lease is the caller's, by room and token.
abbrev pub is_held : String → ℕ → SessionLease → Bool
is_held room token l = l.room_id == room && l.fencing_token == token

-- … and it has not run out.
abbrev pub is_live : String → ℕ → ℕ → SessionLease → Bool
is_live room token now l = is_held room token l && ltb now l.lease_expires_at

unfoldable pub renew_session : Link → SessionLease → ℕ → Query SessionLease
renew_session link x now = transact link do
  row ← or_raise no_rows (← select (lease_of x.player_id))
  raise_if (not (is_live x.room_id x.fencing_token now row)) no_rows
  write (λ d. record d {
    leases =
        update (is_lease_of x.player_id) (λ l. record l { lease_expires_at = now + seconds 30 })
          d.leases;
  })
  pure (record x { lease_expires_at = now + seconds 30 })

-- A row that is not the caller's is left alone, and that is no error.
unfoldable pub release_session : Link → SessionLease → Query (Unit {0})
release_session link x = transact link (
    write λ d. record d {
      leases =
          remove (λ l. is_lease_of x.player_id l && is_held x.room_id x.fencing_token l) d.leases;
    })
