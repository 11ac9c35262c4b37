-- ===== src/Store/Progress.antt =====
-- Backend/infra/postgres.go: CommitProgress, which adds one picked-up item to the inventory.
pub mod Effect
pub mod Retry
use Prim.Native.String.{len}
use g_server.Common.{
  ℕ, Bool, not, ◌||◌, Option, none, some, String, ltb, insert, amount_of, ◌==◌, number_key,
  text_key,
}
use g_server.Domain.{ProgressCommit, OperationResult, Fields, operation_succeeded}
use g_server.Libs.{Libs, Pickup}
use g_server.Store.{
  OperationRow, Query, Link, transact, pure, raise_if, select, or_raise, ◌>>=◌, ◌>>◌,
  invalid_payload, payload_conflict, invalid_text, add_within, max_int, max_bigint,
}
use g_server.Store.Version.{select_progress, lock_progress_version}
use g_server.Store.Operation.{operation_of, fenced_row, write_progress, insert_operation}

module _ (lib : Libs) where
  unfoldable pub decode_pickup : String → Query Pickup
  decode_pickup payload = do
    pickup ← or_raise invalid_payload (lib.pickup_of payload)
    raise_if (pickup.item == "" || ltb 64 (len pickup.item) || not (pickup.amount == 1))
        invalid_payload
    pure pickup

  -- The operation is known: the stored result, with the inventory as it is now.
  unfoldable pub replay_pickup : ProgressCommit → OperationRow → Query OperationResult
  replay_pickup c old = do
    raise_if (not (old.payload_hash == lib.sha256_hex c.payload)) payload_conflict
    row ← select_progress c.player_id
    pure (record {
      operation_id = c.operation_id;
      status = old.status;
      revision = old.revision;
      payload = lib.jsonb_out old.result;
      inventory = row.inventory;
    })

  unfoldable pub apply_pickup : ProgressCommit → Pickup → ℕ → Query OperationResult
  unfolding write_progress insert_operation
  apply_pickup c pickup now = do
    row ← fenced_row c.player_id c.room_id c.fencing_token c.expected_revision now
    revision ← add_within max_bigint row.revision 1
    amount ← add_within max_int (amount_of pickup.item row.inventory) pickup.amount
    write_progress c.player_id
        (λ r. record r { revision = revision; inventory = insert pickup.item amount r.inventory })
    result ← or_raise invalid_text (lib.jsonb_in c.payload)
    insert_operation (record {
      player_id = c.player_id;
      operation_id = c.operation_id;
      payload_hash = lib.sha256_hex c.payload;
      status = operation_succeeded;
      result = result;
      revision = revision;
    })
    after ← select_progress c.player_id
    pure (record {
      operation_id = c.operation_id;
      status = operation_succeeded;
      revision = revision;
      payload = c.payload;
      inventory = after.inventory;
    })

  unfoldable pub pickup_step :
      ProgressCommit → Pickup → ℕ → Option OperationRow → Query OperationResult
  pickup_step c pickup now (some old) = replay_pickup c old
  pickup_step c pickup now none = apply_pickup c pickup now

  unfoldable pub commit_progress : Link → ProgressCommit → ℕ → Query OperationResult
  unfolding decode_pickup lock_progress_version pickup_step
  commit_progress link c now = do
    pickup ← decode_pickup c.payload
    transact link do
      lock_progress_version c.player_id
      old ← select (operation_of c.player_id c.operation_id)
      pickup_step c pickup now old
