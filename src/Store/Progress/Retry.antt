-- ===== src/Store/Progress/Retry.antt =====
-- A pickup is applied once, however often it is sent.
use g_server.Common.{
  ℕ, ◌+◌, ◌≤◌, ◌≡◌, ◌∙◌, ◌⊎◌, refl, some, arith, text_refl, text_iff, text_key, inl, inr,
  Option-cases,
}
use g_server.Domain.{ProgressCommit, OperationResult}
use g_server.Libs.{Libs, Pickup}
use g_server.Store.{Db, OperationRow, ProgressRow, ok, err, unavailable, up, ack_lost}
use g_server.Store.Operation.{operation_of}
use g_server.Store.Version.{lock_progress_version, progress_of, progress_schema_version}
use g_server.Store.Progress.{commit_progress, replay_pickup, decode_pickup}
use g_server.Store.Progress.Effect.{commit_progress-fresh, picked_db-operation, pickup_record}

module _ (lib : Libs) where
  -- The operation is recorded for this payload: the answer is made from the record.
  replay_recorded :
      (c : ProgressCommit) (later : ℕ) (kept : Db) (p : Pickup) (old : OperationRow)
      (row : ProgressRow)
      → decode_pickup lib c.payload kept ≡ (ok p, kept)
      → operation_of c.player_id c.operation_id kept ≡ some old
      → old.payload_hash ≡ lib.sha256_hex c.payload
      → progress_of c.player_id kept ≡ some row
      → row.schema_version ≤ progress_schema_version
      → commit_progress lib up c later kept ≡ (
        ok (record {
          operation_id = c.operation_id;
          status = old.status;
          revision = old.revision;
          payload = lib.jsonb_out old.result;
          inventory = row.inventory;
        }),
        kept,
      )
  unfolding commit_progress replay_pickup lock_progress_version
  replay_recorded c later kept p old row d known same found version =
      ground (arith, d, known, same, text_refl (lib.sha256_hex c.payload), found, version)

  -- What a pickup that is answered has met, where its operation was recorded before.
  pub record Replayed (c : ProgressCommit) (db : Db) (old : OperationRow) (r : OperationResult)
      (db' : Db) : Type 0 where
    pub state : db' ≡ db
    pub hash : old.payload_hash ≡ lib.sha256_hex c.payload
    pub operation : r.operation_id ≡ c.operation_id
    pub status : r.status ≡ old.status
    pub revision : r.revision ≡ old.revision

  commit_progress-Replayed :
      (c : ProgressCommit) (now : ℕ) (db db' : Db) {r : OperationResult} {old : OperationRow}
      → operation_of c.player_id c.operation_id db ≡ some old
      → commit_progress lib up c now db ≡ (ok r, db')
      → Replayed c db old r db'
  unfolding commit_progress replay_pickup
  commit_progress-Replayed c now db db' {r} {old} h e = record {
    state = ground arith;
    hash = ground (arith, text_iff old.payload_hash (lib.sha256_hex c.payload));
    operation = ground arith;
    status = ground arith;
    revision = ground arith;
  }

  decode_pickup-any :
      (c : ProgressCommit) (now : ℕ) (db db' kept : Db) {r : OperationResult}
      → commit_progress lib up c now db ≡ (ok r, db')
      → (p : Pickup) × (decode_pickup lib c.payload kept ≡ (ok p, kept))
  unfolding commit_progress decode_pickup
  decode_pickup-any c now db db' kept {r} e = elim (Option-cases (lib.pickup_of c.payload)) [
    | inl bad ↦ absurd (ground arith)
    | inr (p, good) ↦ (p, ground arith)
  ]

  ack_lost_commits :
      (c : ProgressCommit) (now : ℕ) (db db' : Db) {r : OperationResult}
      → commit_progress lib up c now db ≡ (ok r, db')
      → commit_progress lib ack_lost c now db ≡ (err unavailable, db')
  unfolding commit_progress
  ack_lost_commits c now db db' {r} e = ground arith

  -- What a pickup that is answered with `r` finds when it is sent again, where `kept` has the row
  -- `row`: the first answer, with the payload as PostgreSQL spells the recorded one and the inventory
  -- of that row. The first answer has the payload as it came, unless the operation was known already.
  -- A pickup whose commit is not acknowledged has been written all the same.
  pub record IsRepeated (c : ProgressCommit) (now later : ℕ) (db db' kept : Db)
      (r : OperationResult) (row : ProgressRow) : Type 0 where
    pub old : OperationRow
    pub recorded : operation_of c.player_id c.operation_id db' ≡ some old
    pub first :
        (operation_of c.player_id c.operation_id db ≡ some old)
        ⊎ ((r.payload ≡ c.payload) × (lib.jsonb_in c.payload ≡ some old.result))
    pub again :
        commit_progress lib up c later kept
        ≡ (ok (record r { payload = lib.jsonb_out old.result; inventory = row.inventory }), kept)
    pub lost : commit_progress lib ack_lost c now db ≡ (err unavailable, db')

  -- A pickup that is committed is `IsRepeated` when it is sent again at any time, over any database
  -- that still has what is recorded of the operation and a progress row of a known version.
  pub commit_progress_once :
      (c : ProgressCommit) (now later : ℕ) (db db' kept : Db) {r : OperationResult}
      (row : ProgressRow)
      → commit_progress lib up c now db ≡ (ok r, db')
      → operation_of c.player_id c.operation_id kept ≡ operation_of c.player_id c.operation_id db'
      → progress_of c.player_id kept ≡ some row
      → row.schema_version ≤ progress_schema_version
      → IsRepeated c now later db db' kept r row
  commit_progress_once c now later db db' kept {r} row e same found version =
      let (p, d) = decode_pickup-any c now db db' kept {r = r} e in
      elim (Option-cases (operation_of c.player_id c.operation_id db)) [
        | inl fresh ↦
            let (q, _, k) = commit_progress-fresh lib c now db db' {r = r} fresh e in
            let old = pickup_record lib c k.fields (k.row.revision + 1) in
            let recorded : operation_of c.player_id c.operation_id db' ≡ some old =
              ground (arith, k.state, picked_db-operation lib c q k.row k.fields db fresh) in
            let again =
              replay_recorded c later kept p old row d (same ∙ recorded) refl found version in
            record {
              old = old;
              recorded = recorded;
              first = inr (ground (arith, k.answer), k.decoded_fields);
              again = ground (arith, again, k.answer);
              lost = ack_lost_commits c now db db' e;
            }
        | inr (old, known) ↦
            let k = commit_progress-Replayed c now db db' {r = r} {old = old} known e in
            let recorded : operation_of c.player_id c.operation_id db' ≡ some old =
              ground (arith, k.state, known) in
            let again =
              replay_recorded c later kept p old row d (same ∙ recorded) k.hash found version in
            record {
              old = old;
              recorded = recorded;
              first = inl known;
              again = ground (arith, again, k.operation, k.status, k.revision);
              lost = ack_lost_commits c now db db' e;
            }
      ]
