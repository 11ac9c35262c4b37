-- ===== src/Store/Lease/Fencing.antt =====
-- The fencing tokens over a history of calls: why a room that has lost its lease can write no more,
-- and what a release does to that.
use g_server.Common.{
  ℕ, ◌+◌, ◌≤◌, ◌<◌, String, ◌≡◌, refl, inl, inr, ◌&&◌, Option, none, some, [], ◌∷◌, ◌++◌, arith,
  number_key, text_key, text_iff, text_refl, Option-cases, find-update, find-append_old, find_holds,
  find-remove-append,
}
use native.Mathlib.Nat.{le_refl}
use g_server.Domain.{SessionLease}
use g_server.Store.{Db, Link, seconds, up, ok}
use g_server.Store.Lease.{
  lease_of, is_lease_of, acquire_session, renew_session, upsert_lease, ensure_progress,
  release_session, is_held,
}
use g_server.Store.Lease.Grant.{ensure_progress-leases, acquire_grants}
use g_server.Store.Lease.Grant.{current_token, granted}

upsert_mono :
    (player room other : String) (now : ℕ) (o : Option SessionLease) (db : Db)
    → lease_of player db ≡ o
    → current_token other db ≤ current_token other (upsert_lease player room now o db).1
unfolding upsert_lease
upsert_mono player room other now none db h = elim (Option-cases (lease_of other db)) [
  | inl absent ↦ rw absent (omega arith)
  | inr (x, found) ↦
      ground
        (arith, find-append_old (is_lease_of other) db.leases (granted player room now 1) found)
]
upsert_mono player room other now (some old) db h = elim (Option-cases (lease_of other db)) [
  | inl absent ↦ rw absent (omega arith)
  | inr (x, found) ↦ ground (
    arith,
    text_iff x.player_id player,
    text_iff x.player_id other,
    find_holds (is_lease_of other) db.leases found,
    find-update (is_lease_of other) (is_lease_of player)
        (λ (l : SessionLease). record l {
          room_id = room;
          fencing_token = old.fencing_token + 1;
          lease_expires_at = now + seconds 30;
        })
        db.leases (λ x. refl),
  )
]

acquire_mono :
    (link : Link) (player room other : String) (now : ℕ) (db : Db)
    → current_token other db ≤ current_token other (acquire_session link player room now db).1
unfolding acquire_session
acquire_mono link player room other now db = ground (
  arith,
  ensure_progress-leases player db,
  upsert_mono player room other now (lease_of player db) (ensure_progress player db).1,
)

renew_same :
    (link : Link) (x : SessionLease) (other : String) (now : ℕ) (db : Db)
    → current_token other (renew_session link x now db).1 ≡ current_token other db
unfolding renew_session
renew_same link x other now db = ground (
  arith,
  find-update (is_lease_of other) (is_lease_of x.player_id)
      (λ (l : SessionLease). record l { lease_expires_at = now + seconds 30 }) db.leases
      (λ x. refl),
)

-- A call that releases no lease; what does not touch the leases is `elsewhere`.
pub data Step (db db' : Db) : Type 0 where
  acquires :
      (link : Link) (player room : String) (now : ℕ)
      → db' ≡ (acquire_session link player room now db).1
      → Step db db'
  renews :
      (link : Link) (x : SessionLease) (now : ℕ)
      → db' ≡ (renew_session link x now db).1
      → Step db db'
  elsewhere : db'.leases ≡ db.leases → Step db db'

pub data History (db : Db) : Db → Type 0 where
  here : History db db
  next : {d e : Db} → History db d → Step d e → History db e

Step-mono :
    {db db' : Db} (player : String)
    → Step db db'
    → current_token player db ≤ current_token player db'
Step-mono {db} player (acquires link p room now e) = rw e (acquire_mono link p room player now db)
Step-mono {db} player (renews link x now e) = rw e (omega (arith, renew_same link x player now db))
Step-mono {db} player (elsewhere e) = rw e (le_refl _)

-- x
History-mono :
    {db db' : Db} (player : String)
    → History db db'
    → current_token player db ≤ current_token player db'
History-mono player here = le_refl _
History-mono player (next {d} {e} h s) = omega (arith, History-mono player h, Step-mono player s)

-- However the calls go on after a grant, no release among them, the next grant has a larger token,
-- and no lease that is stored later has a smaller one.
pub granted_tokens_grow :
    (player room room' : String) (t t' : ℕ) (db db₁ db₂ db₃ db₄ : Db) {l l' : SessionLease}
    → acquire_session up player room t db ≡ (ok l, db₁)
    → History db₁ db₂
    → acquire_session up player room' t' db₂ ≡ (ok l', db₃)
    → History db₃ db₄
    → (l.fencing_token < l'.fencing_token) × (l'.fencing_token ≤ current_token player db₄)
granted_tokens_grow player room room' t t' db db₁ db₂ db₃ db₄ {l} {l'} first h second k =
    let a = acquire_grants up player room t db db₁ first in
    let b = acquire_grants up player room' t' db₂ db₃ second in
    (ground (arith, a, b, History-mono player h), ground (arith, b, History-mono player k))

acquire_first :
    (player room : String) (t : ℕ) (db db' : Db) {l : SessionLease}
    → lease_of player db ≡ none
    → acquire_session up player room t db ≡ (ok l, db')
    → (l ≡ granted player room t 1) × (db'.leases ≡ db.leases ++ l ∷ [])
unfolding acquire_session upsert_lease
acquire_first player room t db db' {l} h e = ground (arith, ensure_progress-leases player db)

release_first :
    (player room : String) (t : ℕ) (db db₁ db₂ : Db) {l : SessionLease}
    → lease_of player db ≡ none
    → acquire_session up player room t db ≡ (ok l, db₁)
    → release_session up l db₁ ≡ (ok tt, db₂)
    → lease_of player db₂ ≡ none
unfolding release_session
release_first player room t db db₁ db₂ {l} h first release =
    let (e, k) = acquire_first player room t db db₁ h first in
    ground (
      arith,
      e,
      k,
      text_refl player,
      text_refl room,
      find-remove-append (is_lease_of player)
          (λ (x : SessionLease). is_lease_of l.player_id x && is_held l.room_id l.fencing_token x)
          db.leases l h,
    )

-- A release deletes the row and with it the last token: the next grant starts again at 1. So when
-- the first lease of a player is released and the room takes a second one, both have one token, and
-- a request sent under the first passes for one under the second.
pub release_restarts_tokens :
    (player room : String) (t t' : ℕ) (db db₁ db₂ db₃ : Db) {l l' : SessionLease}
    → lease_of player db ≡ none
    → acquire_session up player room t db ≡ (ok l, db₁)
    → release_session up l db₁ ≡ (ok tt, db₂)
    → acquire_session up player room t' db₂ ≡ (ok l', db₃)
    → (l'.fencing_token ≡ l.fencing_token) × (l'.room_id ≡ l.room_id)
release_restarts_tokens player room t t' db db₁ db₂ db₃ {l} {l'} empty first release second =
    let gone = release_first player room t db db₁ db₂ empty first release in
    let (a, _) = acquire_first player room t db db₁ empty first in
    let (b, _) = acquire_first player room t' db₂ db₃ gone second in ground (arith, a, b)
