-- ===== src/Store/Equipment/Retry.antt =====
-- A change of equipment is made once, however often it is sent.
use g_server.Common.{
  ℕ, ◌+◌, ◌≤◌, ◌≡◌, true, ◌&&◌, none, some, [], arith, number_key, text_key, text_iff, text_refl,
  find_holds, lookup,
}
use g_server.Domain.{EquipmentCommit, ProgressSnapshot}
use g_server.Libs.{Libs}
use g_server.Store.{Db, ok, up, ProgressRow}
use g_server.Store.Operation.{operation_of}
use g_server.Store.Version.{progress_of, progress_schema_version, is_progress_of}
use g_server.Store.Equipment.{
  commit_equipment, equipment_fields, replay_equipment, equipment_transaction, has_text,
  snapshot_of, has_boolean,
}
use g_server.Store.Equipment.Effect.{
  equipment_record, equipment_transaction-fresh, commit_equipment-eq, equipped_row,
  equipped_db-progress, equipped_db-operation,
}

-- The stored object of a request answers to that request.
fields_match :
    (c : EquipmentCommit)
    → (has_text "slot" c.slot (equipment_fields c)
        && has_text "item_id" c.item_id (equipment_fields c)
        && has_boolean "equipped" c.equipped (equipment_fields c))
      ≡ true
unfolding lookup
fields_match c = ground (arith, text_refl c.slot, text_refl c.item_id)

module _ (lib : Libs) where
  -- The replay of a recorded request answers with the row and writes nothing.
  replay_recorded :
      (c : EquipmentCommit) (later : ℕ) (db : Db) (row : ProgressRow) (revision : ℕ)
      → progress_of c.player_id db ≡ some row
      → row.schema_version ≤ progress_schema_version
      → operation_of c.player_id c.operation_id db ≡ some (equipment_record lib c revision)
      → equipment_transaction lib up c later db
        ≡ (ok (record (snapshot_of row) { quests = [] }), db)
  unfolding equipment_transaction replay_equipment
  replay_recorded c later db row revision found version known = ground (arith, fields_match c)

  -- A change that is committed can be sent again at any time and writes nothing more. The two
  -- answers agree, but for the schema version: the first leaves it 0, the second has the row's.
  pub commit_equipment_once :
      (c : EquipmentCommit) (now later : ℕ) (db db' : Db) {s : ProgressSnapshot}
      → operation_of c.player_id c.operation_id db ≡ none
      → commit_equipment lib up c now db ≡ (ok s, db')
      → (s.schema_version ≡ 0)
        × (row : ProgressRow) × (progress_of c.player_id db ≡ some row)
        × (commit_equipment lib up c later db'
            ≡ (ok (record s { schema_version = row.schema_version }), db'))
  unfolding commit_equipment
  commit_equipment_once c now later db db' {s} fresh e =
      let (valid, t) = commit_equipment-eq lib up c now db db' {s = s} e in
      let k = equipment_transaction-fresh lib c now db db' {s = s} fresh t in
      let again =
        replay_recorded c later db' (equipped_row c k.row) (k.row.revision + 1)
          (ground (arith, k.state, equipped_db-progress lib c k.row db k.fence.found)) k.version
          (ground (arith, k.state, equipped_db-operation lib c k.row db fresh)) in
      let owner =
        (text_iff k.row.player_id c.player_id).0
          (find_holds (is_progress_of c.player_id) db.progress k.fence.found) in
      (
        ground (arith, k.answer),
        k.row,
        k.fence.found,
        ground (arith, k.answer, again, owner, valid),
      )
