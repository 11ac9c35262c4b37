-- ===== src/Store/Lease/Grant.antt =====
-- Who select a lease, and with what token.
use g_server.Common.{
  ℕ, ◌+◌, ◌≤◌, ◌<◌, String, ◌≡◌, refl, ◌≢◌, inl, inr, true, Option, none, some, arith, number_key,
  text_key, text_iff, text_refl, Option-cases, find-update, find-append_new, find_holds,
}
use g_server.Domain.{SessionLease}
use g_server.Store.{Db, ok, Link, seconds, player_exists, max_bigint, up}
use g_server.Store.Lease.{is_lease_of, lease_of, acquire_session, ensure_progress, upsert_lease}

abbrev pub token_of : Option SessionLease → ℕ
token_of none = 0
token_of (some l) = l.fencing_token

-- The last token granted to the player; 0 if the player has no row.
abbrev pub current_token : String → Db → ℕ
current_token player db = token_of (lease_of player db)

abbrev pub granted : String → String → ℕ → ℕ → SessionLease
granted player room now token = record {
  player_id = player;
  room_id = room;
  fencing_token = token;
  lease_expires_at = now + seconds 30;
}

upsert_grants :
    (player room : String) (now : ℕ) (o : Option SessionLease) (db db' : Db) {l : SessionLease}
    → lease_of player db ≡ o
    → upsert_lease player room now o db ≡ (ok l, db')
    → (l ≡ granted player room now (token_of o + 1)) × (lease_of player db' ≡ some l)
unfolding upsert_lease
upsert_grants player room now none db db' {l} h e = ground (
  arith,
  text_refl player,
  find-append_new (is_lease_of player) db.leases (granted player room now 1),
)
upsert_grants player room now (some old) db db' {l} h e = ground (
  arith,
  text_refl player,
  text_iff old.player_id player,
  find_holds (is_lease_of player) db.leases h,
  find-update (is_lease_of player) (is_lease_of player)
      (λ (l : SessionLease). record l {
        room_id = room;
        fencing_token = old.fencing_token + 1;
        lease_expires_at = now + seconds 30;
      })
      db.leases (λ x. refl),
)

pub ensure_progress-leases :
    (player : String) (db : Db) → (ensure_progress player db).1.leases ≡ db.leases
unfolding ensure_progress
ensure_progress-leases player db = ground arith

-- The lease that is granted is stored, it is the player's in this room for 30 seconds, and its
-- token is one more than the last.
pub acquire_grants :
    (link : Link) (player room : String) (now : ℕ) (db db' : Db) {l : SessionLease}
    → acquire_session link player room now db ≡ (ok l, db')
    → (l ≡ granted player room now (current_token player db + 1)) × (lease_of player db' ≡ some l)
unfolding acquire_session
acquire_grants link player room now db db' {l} e = ground (
  arith,
  ensure_progress-leases player db,
  upsert_grants player room now (lease_of player db) (ensure_progress player db).1 db' {l = l},
)

-- While a lease is live nobody is granted one, the holder's room included, and nothing is written.
pub acquire_busy :
    (link : Link) (player room : String) (now : ℕ) (db : Db) {l : SessionLease} (l' : SessionLease)
    → lease_of player db ≡ some l
    → now < l.lease_expires_at
    → ((acquire_session link player room now db).0 ≢ ok l')
      × ((acquire_session link player room now db).1 ≡ db)
unfolding acquire_session
acquire_busy link player room now db {l} l' h live = (
  λ e. ground (arith, ensure_progress-leases player db),
  ground (arith, ensure_progress-leases player db),
)

-- A player who exists and has no live lease is granted one.
pub acquire_free :
    (player room : String) (now : ℕ) (db : Db)
    → player_exists player db ≡ true
    → ((l : SessionLease)
        → lease_of player db ≡ some l
        → (l.lease_expires_at ≤ now) × (l.fencing_token < max_bigint))
    → (acquire_session up player room now db).0
      ≡ ok (granted player room now (current_token player db + 1))
unfolding acquire_session ensure_progress upsert_lease
acquire_free player room now db known free = elim (Option-cases (lease_of player db)) [
  | inl absent ↦ ground arith
  | inr (l, held) ↦ ground (
    arith,
    free l held,
    text_iff l.player_id player,
    find_holds (is_lease_of player) db.leases held,
  )
]
