-- ===== src/Store/Equipment/Effect.antt =====
-- What a change of equipment writes, and when it is refused.
use g_server.Common.{
  ℕ, ◌+◌, ◌≤◌, ◌<◌, String, ◌≡◌, refl, inl, inr, true, false, none, some, [], ◌∷◌, ◌++◌, arith,
  if◌then◌else◌, ◌==◌, number_key, text_key, text_iff, text_refl, Bool-cases, Option-cases, update,
  find-update, find-append_new, find_holds, Dict, lookup, lookup-insert, lookup-erase, amount_of,
}
use g_server.Domain.{EquipmentCommit, ProgressSnapshot, operation_succeeded}
use g_server.Libs.{Libs}
use g_server.Store.{Db, ok, ProgressRow, OperationRow, up, Link}
use g_server.Store.Operation.{operation_of, is_operation}
use g_server.Store.Operation.Fence.{Fenced, fenced_row-cases}
use g_server.Store.Version.{progress_of, is_progress_of, progress_schema_version}
use g_server.Store.Equipment.{
  apply_equipment, is_owned, change_equipment, equipment_fields, equipment_transaction,
  commit_equipment, invalid_request, item_in,
}

abbrev pub equipped_row : EquipmentCommit → ProgressRow → ProgressRow
equipped_row c row = record row {
  revision = row.revision + 1;
  equipment = change_equipment c row.equipment;
}

-- One law for every slot.
lookup-change_equipment :
    (c : EquipmentCommit) (slot : String) (e : Dict String)
    → lookup slot (change_equipment c e)
      ≡ (if c.slot == slot then (if c.equipped then some c.item_id else none) else lookup slot e)
lookup-change_equipment c slot e =
    ground (arith, lookup-insert c.slot slot c.item_id e, lookup-erase c.slot slot e)

-- What the test of ownership says.
owned_means :
    (c : EquipmentCommit) (row : ProgressRow)
    → is_owned c row ≡ true
    → if c.equipped
      then 0 < amount_of c.item_id row.inventory
      else item_in c.slot row.equipment ≡ c.item_id
owned_means c row h = elim (Bool-cases c.equipped) [
  | inl on ↦ rw on (ground arith)
  | inr off ↦ rw off (ground (arith, text_iff (item_in c.slot row.equipment) c.item_id))
]

module _ (lib : Libs) where
  abbrev pub equipment_record : EquipmentCommit → ℕ → OperationRow
  equipment_record c revision = record {
    player_id = c.player_id;
    operation_id = c.operation_id;
    payload_hash = lib.sha256_hex (lib.marshal (equipment_fields c));
    status = operation_succeeded;
    result = equipment_fields c;
    revision = revision;
  }

  abbrev pub equipped_db : EquipmentCommit → ProgressRow → Db → Db
  equipped_db c row db = record db {
    progress =
        update (is_progress_of c.player_id)
          (λ r. record r {
            revision = row.revision + 1;
            equipment = change_equipment c r.equipment;
          })
          db.progress;
    operations = db.operations ++ equipment_record c (row.revision + 1) ∷ [];
  }

  pub equipped_db-progress :
      (c : EquipmentCommit) (row : ProgressRow) (db : Db)
      → progress_of c.player_id db ≡ some row
      → progress_of c.player_id (equipped_db c row db) ≡ some (equipped_row c row)
  equipped_db-progress c row db h = ground (
    arith,
    find_holds (is_progress_of c.player_id) db.progress h,
    find-update (is_progress_of c.player_id) (is_progress_of c.player_id)
        (λ (r : ProgressRow). record r {
          revision = row.revision + 1;
          equipment = change_equipment c r.equipment;
        })
        db.progress (λ x. refl),
  )

  pub equipped_db-operation :
      (c : EquipmentCommit) (row : ProgressRow) (db : Db)
      → operation_of c.player_id c.operation_id db ≡ none
      → operation_of c.player_id c.operation_id (equipped_db c row db)
        ≡ some (equipment_record c (row.revision + 1))
  equipped_db-operation c row db h =
      find-append_new (is_operation c.player_id c.operation_id) db.operations _ h
        (ground (arith, text_refl c.player_id, text_refl c.operation_id))

  -- What a fresh change has met, written and answered.
  pub record Equipped (c : EquipmentCommit) (now : ℕ) (db : Db) (s : ProgressSnapshot) (db' : Db)
      : Type 0 where
    pub row : ProgressRow
    pub fence : Fenced c.player_id c.room_id c.fencing_token c.expected_revision now db row
    pub owned : is_owned c row ≡ true
    pub version : row.schema_version ≤ progress_schema_version
    pub state : db' ≡ equipped_db c row db
    pub answer : s ≡ record {
      player_id = c.player_id;
      schema_version = 0;
      revision = row.revision + 1;
      inventory = row.inventory;
      equipment = change_equipment c row.equipment;
      unlocks = row.unlocks;
      quests = [];
    }

  apply_equipment-Equipped :
      (c : EquipmentCommit) (now : ℕ) (db db' : Db) {s : ProgressSnapshot} (locked : ProgressRow)
      → operation_of c.player_id c.operation_id db ≡ none
      → progress_of c.player_id db ≡ some locked
      → locked.schema_version ≤ progress_schema_version
      → apply_equipment lib c now db ≡ (ok s, db')
      → Equipped c now db s db'
  unfolding apply_equipment
  apply_equipment-Equipped c now db db' {s} locked fresh h version e =
      elim (fenced_row-cases c.player_id c.room_id c.fencing_token c.expected_revision now db) [
        | inl refused ↦ absurd (ground arith)
        | inr (row, f, eq) ↦ elim (Bool-cases (is_owned c row)) [
          | inr poor ↦ absurd (ground (arith, f.found))
          | inl owned ↦ record {
            row = row;
            fence = f;
            owned = owned;
            version = ground (arith, f.found);
            state = ground (arith, f.found);
            answer = ground (arith, f.found);
          }
        ]
      ]

  pub equipment_transaction-fresh :
      (c : EquipmentCommit) (now : ℕ) (db db' : Db) {s : ProgressSnapshot}
      → operation_of c.player_id c.operation_id db ≡ none
      → equipment_transaction lib up c now db ≡ (ok s, db')
      → Equipped c now db s db'
  unfolding equipment_transaction
  equipment_transaction-fresh c now db db' {s} fresh e =
      elim (Option-cases (progress_of c.player_id db)) [
        | inl absent ↦ absurd (ground arith)
        | inr (row, h) ↦
            apply_equipment-Equipped c now db db' row fresh h (ground arith) (ground arith)
      ]

  pub commit_equipment-eq :
      (link : Link) (c : EquipmentCommit) (now : ℕ) (db db' : Db) {s : ProgressSnapshot}
      → commit_equipment lib link c now db ≡ (ok s, db')
      → (invalid_request c ≡ false) × (equipment_transaction lib link c now db ≡ (ok s, db'))
  unfolding commit_equipment
  commit_equipment-eq link c now db db' {s} e = ground arith

  -- A fresh change is made by the room that holds the live lease under its token, at the revision
  -- that the caller knew, to a row of a known version. The item was owned: in the inventory to be
  -- put on, in the slot to be taken off. Afterwards the slot holds the item or nothing, any other
  -- slot what it held, the inventory is what it was, the revision has moved on by one, and the
  -- operation is recorded.
  pub record EquipmentEffect (c : EquipmentCommit) (now : ℕ) (db db' : Db) (slot : String)
      : Type 0 where
    pub row : ProgressRow
    pub row' : ProgressRow
    pub fence : Fenced c.player_id c.room_id c.fencing_token c.expected_revision now db row
    pub version : row.schema_version ≤ progress_schema_version
    pub owned :
        if c.equipped
        then 0 < amount_of c.item_id row.inventory
        else item_in c.slot row.equipment ≡ c.item_id
    pub written : progress_of c.player_id db' ≡ some row'
    pub slots : lookup slot row'.equipment ≡ (
        if c.slot == slot
        then (if c.equipped then some c.item_id else none)
        else lookup slot row.equipment)
    pub kept : row'.inventory ≡ row.inventory
    pub moved : row'.revision ≡ row.revision + 1
    pub recorded :
        operation_of c.player_id c.operation_id db' ≡ some (equipment_record c row'.revision)

  -- A change whose operation is not recorded and that succeeds has the effect `EquipmentEffect`, for
  -- every slot.
  pub commit_equipment_effect :
      (c : EquipmentCommit) (now : ℕ) (db db' : Db) (slot : String) {s : ProgressSnapshot}
      → operation_of c.player_id c.operation_id db ≡ none
      → commit_equipment lib up c now db ≡ (ok s, db')
      → EquipmentEffect c now db db' slot
  commit_equipment_effect c now db db' slot {s} fresh e =
      let k =
        equipment_transaction-fresh c now db db' {s = s} fresh
          (commit_equipment-eq up c now db db' {s = s} e).1 in
      record {
        row = k.row;
        row' = equipped_row c k.row;
        fence = k.fence;
        version = k.version;
        owned = owned_means c k.row k.owned;
        written = ground (arith, k.state, equipped_db-progress c k.row db k.fence.found);
        slots = lookup-change_equipment c slot k.row.equipment;
        kept = refl;
        moved = refl;
        recorded = ground (arith, k.state, equipped_db-operation c k.row db fresh);
      }
