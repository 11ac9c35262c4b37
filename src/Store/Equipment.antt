-- ===== src/Store/Equipment.antt =====
-- Backend/infra/postgres.go: CommitEquipment, which puts an owned item into a slot, or takes it out.
pub mod Effect
pub mod Retry
use Prim.Native.String.{len}
use g_server.Common.{
  ℕ, Bool, true, false, not, ◌&&◌, ◌||◌, Option, none, some, [], ◌∷◌, String, Dict, ltb, lookup,
  insert, erase, amount_of, ◌==◌, number_key, text_key, if◌then◌else◌,
}
use g_server.Domain.{
  EquipmentCommit, ProgressSnapshot, Fields, JsonValue, text, number, boolean, operation_succeeded,
}
use g_server.Libs.{Libs}
use g_server.Store.{
  ProgressRow, OperationRow, Query, Link, transact, pure, raise_if, select, ◌>>=◌, ◌>>◌, conflict,
  invalid_equipment, equipment_conflict, add_within, max_bigint,
}
use g_server.Store.Version.{select_progress, lock_progress_version, require_progress_version}
use g_server.Store.Operation.{
  operation_of, fenced_row, write_progress, insert_operation, has_text, has_boolean, snapshot_of,
}

-- The guard before the transaction.
unfoldable pub invalid_request : EquipmentCommit → Bool
invalid_request c =
    c.player_id == ""
    || c.room_id == ""
    || c.slot == ""
    || ltb 32 (len c.slot)
    || ltb 128 (len c.item_id)
    || c.operation_id == ""
    || ltb c.fencing_token 1

-- The JSON object of a request, by the struct's tags.
abbrev pub equipment_fields : EquipmentCommit → Fields
equipment_fields c =
    ("player_id", text c.player_id)
    ∷ ("room_id", text c.room_id)
    ∷ ("fencing_token", number c.fencing_token)
    ∷ ("expected_revision", number c.expected_revision)
    ∷ ("operation_id", text c.operation_id)
    ∷ ("slot", text c.slot)
    ∷ ("item_id", text c.item_id)
    ∷ ("equipped", boolean c.equipped)
    ∷ []

-- `coalesce(equipment->>slot, '')`.
abbrev pub item_in : String → Dict String → String
item_in slot equipment = elim (lookup slot equipment) [ none ↦ "" | some item ↦ item ]

-- To be put on, an item must be in the inventory; to be taken off, in the slot.
abbrev pub is_owned : EquipmentCommit → ProgressRow → Bool
is_owned c row =
    if c.equipped
    then ltb 0 (amount_of c.item_id row.inventory)
    else item_in c.slot row.equipment == c.item_id

abbrev pub change_equipment : EquipmentCommit → Dict String → Dict String
change_equipment c e = if c.equipped then insert c.slot c.item_id e else erase c.slot e

-- A known operation answers with the row as it is now; the quests are not read.
unfoldable pub replay_equipment : EquipmentCommit → OperationRow → Query ProgressSnapshot
replay_equipment c old = do
  raise_if
      (not (
        has_text "slot" c.slot old.result
        && has_text "item_id" c.item_id old.result
        && has_boolean "equipped" c.equipped old.result))
      equipment_conflict
  row ← select_progress c.player_id
  require_progress_version row.schema_version
  pure (record (snapshot_of row) { quests = [] })

module _ (lib : Libs) where
  -- A fresh operation fills in neither the schema version nor the quests of its answer.
  unfoldable pub apply_equipment : EquipmentCommit → ℕ → Query ProgressSnapshot
  unfolding write_progress insert_operation
  apply_equipment c now = do
    row ← select_progress c.player_id
    raise_if (not (is_owned c row)) conflict
    fenced ← fenced_row c.player_id c.room_id c.fencing_token c.expected_revision now
    revision ← add_within max_bigint fenced.revision 1
    write_progress c.player_id
        (λ r. record r { revision = revision; equipment = change_equipment c r.equipment })
    insert_operation (record {
      player_id = c.player_id;
      operation_id = c.operation_id;
      payload_hash = lib.sha256_hex (lib.marshal (equipment_fields c));
      status = operation_succeeded;
      result = equipment_fields c;
      revision = revision;
    })
    pure (record {
      player_id = c.player_id;
      schema_version = 0;
      revision = revision;
      inventory = fenced.inventory;
      equipment = change_equipment c fenced.equipment;
      unlocks = fenced.unlocks;
      quests = [];
    })

  unfoldable pub equipment_step : EquipmentCommit → ℕ → Option OperationRow → Query ProgressSnapshot
  equipment_step c now (some old) = replay_equipment c old
  equipment_step c now none = apply_equipment c now

  unfoldable pub equipment_transaction : Link → EquipmentCommit → ℕ → Query ProgressSnapshot
  unfolding lock_progress_version equipment_step
  equipment_transaction link c now = transact link do
    lock_progress_version c.player_id
    old ← select (operation_of c.player_id c.operation_id)
    equipment_step c now old

  unfoldable pub commit_equipment : Link → EquipmentCommit → ℕ → Query ProgressSnapshot
  commit_equipment link c now = do
    raise_if (invalid_request c) invalid_equipment
    equipment_transaction link c now
