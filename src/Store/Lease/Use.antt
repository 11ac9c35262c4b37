-- ===== src/Store/Lease/Use.antt =====
-- What a lease is good for: the pickups of the player in the room that holds it.
use g_server.Common.{
  ℕ, ◌+◌, ◌≤◌, ◌<◌, ◌≡◌, none, some, false, arith, number_key, text_key, text_iff, ◌==◌, String,
  amount_of,
}
use Prim.Native.String.{len}
use g_server.Domain.{ProgressCommit, OperationResult, Fields, SessionLease, operation_succeeded}
use g_server.Libs.{Libs, Pickup}
use g_server.Store.{Db, ProgressRow, ok, up, seconds, max_int, max_bigint}
use g_server.Store.Version.{lock_progress_version, progress_of, progress_schema_version}
use g_server.Store.Operation.{operation_of, fenced_row}
use g_server.Store.Progress.{apply_pickup, commit_progress, decode_pickup}
use g_server.Store.Progress.Effect.{picked, picked_db, picked_db-progress}
use g_server.Store.Lease.{acquire_session, lease_of}
use g_server.Store.Lease.Grant.{acquire_grants}

-- A pickup in the player's room, of one item that there is room for, at the revision of the row.
pub record IsFit (lib : Libs) (l : SessionLease) (row : ProgressRow) (p : Pickup) (fields : Fields)
    (c : ProgressCommit) : Type 0 where
  pub player : c.player_id ≡ l.player_id
  pub room : c.room_id ≡ l.room_id
  pub token : c.fencing_token ≡ l.fencing_token
  pub revision : c.expected_revision ≡ row.revision
  pub read : lib.pickup_of c.payload ≡ some p
  pub fields_lem : lib.jsonb_in c.payload ≡ some fields
  pub named : (p.item == "") ≡ false
  pub short : len p.item ≤ 64
  pub single : p.amount ≡ 1
  pub known : row.schema_version ≤ progress_schema_version
  pub small : amount_of p.item row.inventory + 1 ≤ max_int
  pub early : row.revision + 1 ≤ max_bigint

abbrev pub answered : ProgressCommit → Pickup → ProgressRow → OperationResult
answered c p row = record {
  operation_id = c.operation_id;
  status = operation_succeeded;
  revision = row.revision + 1;
  payload = c.payload;
  inventory = (picked p row).inventory;
}

module _ (lib : Libs) where
  decode_pickup-IsFit :
      {l : SessionLease} {row : ProgressRow} {p : Pickup} {fields : Fields} (c : ProgressCommit)
      (db : Db)
      → IsFit lib l row p fields c
      → decode_pickup lib c.payload db ≡ (ok p, db)
  unfolding decode_pickup
  decode_pickup-IsFit c db f = ground (arith, f.read, f.named, f.short, f.single)

  fenced_row-IsFit :
      {l : SessionLease} {row : ProgressRow} {p : Pickup} {fields : Fields} (c : ProgressCommit)
      (now : ℕ) (db : Db)
      → IsFit lib l row p fields c
      → lease_of c.player_id db ≡ some l
      → progress_of c.player_id db ≡ some row
      → now < l.lease_expires_at
      → fenced_row c.player_id c.room_id c.fencing_token c.expected_revision now db ≡ (ok row, db)
  unfolding fenced_row
  fenced_row-IsFit {l} {row} c now db f held found early =
      ground (arith, f.room, f.token, f.revision, held, found, early, text_iff l.room_id c.room_id)

  apply_pickup-IsFit :
      {l : SessionLease} {row : ProgressRow} {p : Pickup} {fields : Fields} (c : ProgressCommit)
      (now : ℕ) (db : Db)
      → IsFit lib l row p fields c
      → fenced_row c.player_id c.room_id c.fencing_token c.expected_revision now db ≡ (ok row, db)
      → progress_of c.player_id db ≡ some row
      → operation_of c.player_id c.operation_id db ≡ none
      → apply_pickup lib c p now db ≡ (ok (answered c p row), picked_db lib c p row fields db)
  unfolding apply_pickup
  apply_pickup-IsFit {l} {row} {p} {fields} c now db f fence found fresh = ground (
    arith,
    fence,
    fresh,
    f.single,
    f.small,
    f.early,
    f.fields_lem,
    picked_db-progress lib c p row fields db found,
  )

  -- A lease that has been granted serves for 30 seconds: a new pickup of the player in that room,
  -- under the lease's token and at the revision that is stored, of one item that there is room for,
  -- succeeds, adds the item, moves the revision on by one and is recorded.
  pub lease_serves :
      (player room : String) (now later : ℕ) (db db' : Db) {l : SessionLease} (row : ProgressRow)
      (p : Pickup) (fields : Fields) (c : ProgressCommit)
      → acquire_session up player room now db ≡ (ok l, db')
      → IsFit lib l row p fields c
      → progress_of player db' ≡ some row
      → operation_of player c.operation_id db' ≡ none
      → later < now + seconds 30
      → commit_progress lib up c later db'
        ≡ (ok (answered c p row), picked_db lib c p row fields db')
  unfolding commit_progress lock_progress_version
  lease_serves player room now later db db' {l} row p fields c granting f found fresh early =
      let (shape, held) = acquire_grants up player room now db db' {l = l} granting in
      let same : player ≡ c.player_id = ground (arith, shape, f.player) in
      let held' : lease_of c.player_id db' ≡ some l = rw (← same) held in
      let found' : progress_of c.player_id db' ≡ some row = rw (← same) found in
      let fresh' : operation_of c.player_id c.operation_id db' ≡ none = rw (← same) fresh in
      let fence = fenced_row-IsFit c later db' f held' found' (ground (arith, shape, early)) in
      ground (
        arith,
        decode_pickup-IsFit c db' f,
        f.known,
        found',
        fresh',
        apply_pickup-IsFit c later db' f fence found' fresh',
      )
