-- ===== src/Store/Progress/Effect.antt =====
-- What a pickup writes, and when it is refused.
use g_server.Common.{
  ℕ, ◌+◌, ◌≤◌, ◌≡◌, refl, ◌≢◌, inl, inr, none, some, [], ◌∷◌, ◌++◌, arith, number_key, text_key,
  text_iff, text_refl, Option-cases, update, find-update, find-append_new, find_holds, insert,
  amount_of,
}
use Prim.Native.String.{len}
use g_server.Domain.{ProgressCommit, OperationResult, Fields, operation_succeeded}
use g_server.Libs.{Libs, Pickup}
use g_server.Store.{Db, ProgressRow, OperationRow, ok, up}
use g_server.Store.Version.{
  lock_progress_version, progress_of, is_progress_of, progress_schema_version,
}
use g_server.Store.Operation.{operation_of, is_operation}
use g_server.Store.Operation.Fence.{Fenced, fenced_row-cases}
use g_server.Store.Progress.{apply_pickup, commit_progress, decode_pickup}

abbrev pub picked : Pickup → ProgressRow → ProgressRow
picked p row = record row {
  revision = row.revision + 1;
  inventory = insert p.item (amount_of p.item row.inventory + p.amount) row.inventory;
}

module _ (lib : Libs) where
  abbrev pub pickup_record : ProgressCommit → Fields → ℕ → OperationRow
  pickup_record c fields revision = record {
    player_id = c.player_id;
    operation_id = c.operation_id;
    payload_hash = lib.sha256_hex c.payload;
    status = operation_succeeded;
    result = fields;
    revision = revision;
  }

  abbrev pub picked_db : ProgressCommit → Pickup → ProgressRow → Fields → Db → Db
  picked_db c p row fields db = record db {
    progress =
        update (is_progress_of c.player_id)
          (λ r. record r {
            revision = row.revision + 1;
            inventory = insert p.item (amount_of p.item row.inventory + p.amount) r.inventory;
          })
          db.progress;
    operations = db.operations ++ pickup_record c fields (row.revision + 1) ∷ [];
  }

  pub picked_db-progress :
      (c : ProgressCommit) (p : Pickup) (row : ProgressRow) (fields : Fields) (db : Db)
      → progress_of c.player_id db ≡ some row
      → progress_of c.player_id (picked_db c p row fields db) ≡ some (picked p row)
  picked_db-progress c p row fields db h = ground (
    arith,
    find_holds (is_progress_of c.player_id) db.progress h,
    find-update (is_progress_of c.player_id) (is_progress_of c.player_id)
        (λ (r : ProgressRow). record r {
          revision = row.revision + 1;
          inventory = insert p.item (amount_of p.item row.inventory + p.amount) r.inventory;
        })
        db.progress (λ x. refl),
  )

  pub picked_db-operation :
      (c : ProgressCommit) (p : Pickup) (row : ProgressRow) (fields : Fields) (db : Db)
      → operation_of c.player_id c.operation_id db ≡ none
      → operation_of c.player_id c.operation_id (picked_db c p row fields db)
        ≡ some (pickup_record c fields (row.revision + 1))
  picked_db-operation c p row fields db h =
      find-append_new (is_operation c.player_id c.operation_id) db.operations _ h
        (ground (arith, text_refl c.player_id, text_refl c.operation_id))

  -- What a fresh pickup has met and written.
  pub record Picked (c : ProgressCommit) (p : Pickup) (now : ℕ) (db : Db) (r : OperationResult)
      (db' : Db) : Type 0 where
    pub row : ProgressRow
    pub fields : Fields
    pub fence : Fenced c.player_id c.room_id c.fencing_token c.expected_revision now db row
    pub decoded_fields : lib.jsonb_in c.payload ≡ some fields
    pub state : db' ≡ picked_db c p row fields db
    pub answer : r ≡ record {
      operation_id = c.operation_id;
      status = operation_succeeded;
      revision = row.revision + 1;
      payload = c.payload;
      inventory = (picked p row).inventory;
    }

  apply_pickup-Picked :
      (c : ProgressCommit) (p : Pickup) (now : ℕ) (db db' : Db) {r : OperationResult}
      → operation_of c.player_id c.operation_id db ≡ none
      → apply_pickup lib c p now db ≡ (ok r, db')
      → Picked c p now db r db'
  unfolding apply_pickup
  apply_pickup-Picked c p now db db' {r} fresh e =
      elim (fenced_row-cases c.player_id c.room_id c.fencing_token c.expected_revision now db) [
        | inl refused ↦ absurd (ground arith)
        | inr (row, f, eq) ↦ elim (Option-cases (lib.jsonb_in c.payload)) [
          | inl bad ↦ absurd (ground (arith))
          | inr (fields, good) ↦ record {
            row = row;
            fields = fields;
            fence = f;
            decoded_fields = good;
            state = ground (arith);
            answer = ground (arith, picked_db-progress c p row fields db f.found);
          }
        ]
      ]

  pub commit_progress-fresh :
      (c : ProgressCommit) (now : ℕ) (db db' : Db) {r : OperationResult}
      → operation_of c.player_id c.operation_id db ≡ none
      → commit_progress lib up c now db ≡ (ok r, db')
      → (p : Pickup) × (decode_pickup lib c.payload db ≡ (ok p, db)) × Picked c p now db r db'
  unfolding commit_progress
  commit_progress-fresh c now db db' {r} fresh e = elim (Option-cases (lib.pickup_of c.payload)) [
    | inl bad ↦ absurd (ground arith)
    | inr (p, good) ↦
        (p, ground arith, apply_pickup-Picked c p now db db' {r = r} fresh (ground arith))
  ]

  -- A fresh pickup names an item of 1 to 64 bytes, comes from the room that holds the live lease
  -- under its token and from a caller that knew the revision; it adds one of that item, moves the
  -- revision on by one, and records the operation and its answer.
  pub record PickupEffect (c : ProgressCommit) (now : ℕ) (db db' : Db) (r : OperationResult)
      : Type 0 where
    pub pickup : Pickup
    pub row : ProgressRow
    pub fields : Fields
    pub decoded : lib.pickup_of c.payload ≡ some pickup
    pub named : pickup.item ≢ ""
    pub short : len pickup.item ≤ 64
    pub fence : Fenced c.player_id c.room_id c.fencing_token c.expected_revision now db row
    pub version : row.schema_version ≤ progress_schema_version
    pub written :
        progress_of c.player_id db'
        ≡ some (record row {
          revision = row.revision + 1;
          inventory = insert pickup.item (amount_of pickup.item row.inventory + 1) row.inventory;
        })
    pub recorded :
        operation_of c.player_id c.operation_id db'
        ≡ some (pickup_record c fields (row.revision + 1))
    pub answered : r.revision ≡ row.revision + 1

  -- A pickup whose operation is not recorded and that succeeds has the effect `PickupEffect`.
  pub commit_progress_effect :
      (c : ProgressCommit) (now : ℕ) (db db' : Db) {r : OperationResult}
      → operation_of c.player_id c.operation_id db ≡ none
      → commit_progress lib up c now db ≡ (ok r, db')
      → PickupEffect c now db db' r
  unfolding commit_progress lock_progress_version
  commit_progress_effect c now db db' {r} fresh e =
      let (p, d, k) = commit_progress-fresh c now db db' {r = r} fresh e in
      record {
        pickup = p;
        row = k.row;
        fields = k.fields;
        decoded = ground arith;
        named = ground (arith, text_iff p.item "");
        short = ground arith;
        fence = k.fence;
        version = ground (arith, k.fence.found);
        written = ground (arith, picked_db-progress c p k.row k.fields db k.fence.found, k.state);
        recorded = ground (arith, picked_db-operation c p k.row k.fields db fresh, k.state);
        answered = ground (arith, k.answer);
      }
