-- ===== src/Store/Quest/Written.antt =====
-- What a quest commit that goes through has met and written, by the rules as the code has them.
use g_server.Common.{
  ℕ, ◌+◌, ◌≤◌, ◌≡◌, refl, inl, inr, false, none, some, [], ◌∷◌, ◌++◌, arith, if◌then◌else◌,
  number_key, text_key, text_refl, Option-cases, update, find-update, find-append_new, find_holds,
  Dict,
}
use g_server.Domain.{QuestCommit, ProgressSnapshot, operation_succeeded}
use g_server.Libs.{Libs}
use g_server.Store.{Db, Link, ok, up, ProgressRow, OperationRow}
use g_server.Store.Operation.{operation_of, is_operation, get_progress_snapshot, snapshot_of}
use g_server.Store.Operation.Fence.{
  Fenced, fenced_row-cases, get_progress_snapshot-same, get_progress_snapshot-eq,
}
use g_server.Store.Version.{progress_of, is_progress_of, progress_schema_version}
use g_server.Store.Quest.{
  apply_quest, quest_transaction, commit_quest, invalid_request, quest_fields, advance_quests,
  Advance, grant_reward,
}

-- The inventory after the commit.
abbrev pub paid : QuestCommit → Advance → Dict ℕ → Dict ℕ
paid c a inventory = if a.completes then grant_reward c.reward inventory else inventory

abbrev pub advanced_row : QuestCommit → Advance → ProgressRow → ProgressRow
advanced_row c a row = record row {
  revision = row.revision + 1;
  quests = a.quests;
  inventory = paid c a row.inventory;
}

module _ (lib : Libs) where
  abbrev pub quest_record : QuestCommit → ℕ → OperationRow
  quest_record c revision = record {
    player_id = c.player_id;
    operation_id = c.operation_id;
    payload_hash = lib.sha256_hex (lib.marshal (quest_fields c));
    status = operation_succeeded;
    result = quest_fields c;
    revision = revision;
  }

  abbrev pub advanced_db : QuestCommit → Advance → ProgressRow → Db → Db
  advanced_db c a row db = record db {
    progress =
        update (is_progress_of c.player_id)
          (λ r. record r {
            revision = row.revision + 1;
            quests = a.quests;
            inventory = paid c a row.inventory;
          })
          db.progress;
    operations = db.operations ++ quest_record c (row.revision + 1) ∷ [];
  }

  pub advanced_db-progress :
      (c : QuestCommit) (a : Advance) (row : ProgressRow) (db : Db)
      → progress_of c.player_id db ≡ some row
      → progress_of c.player_id (advanced_db c a row db) ≡ some (advanced_row c a row)
  advanced_db-progress c a row db h = ground (
    arith,
    find_holds (is_progress_of c.player_id) db.progress h,
    find-update (is_progress_of c.player_id) (is_progress_of c.player_id)
        (λ (r : ProgressRow). record r {
          revision = row.revision + 1;
          quests = a.quests;
          inventory = paid c a row.inventory;
        })
        db.progress (λ x. refl),
  )

  pub advanced_db-operation :
      (c : QuestCommit) (a : Advance) (row : ProgressRow) (db : Db)
      → operation_of c.player_id c.operation_id db ≡ none
      → operation_of c.player_id c.operation_id (advanced_db c a row db)
        ≡ some (quest_record c (row.revision + 1))
  advanced_db-operation c a row db h =
      find-append_new (is_operation c.player_id c.operation_id) db.operations _ h
        (ground (arith, text_refl c.player_id, text_refl c.operation_id))

  -- What a fresh commit has met and written.
  pub record Advanced (c : QuestCommit) (now : ℕ) (db db' : Db) : Type 0 where
    pub row : ProgressRow
    pub advance : Advance
    pub fence : Fenced c.player_id c.room_id c.fencing_token c.expected_revision now db row
    pub version : row.schema_version ≤ progress_schema_version
    pub moved : advance_quests c row.revision row.quests ≡ some advance
    pub state : db' ≡ advanced_db c advance row db

  apply_quest-Advanced :
      (c : QuestCommit) (now : ℕ) (db db' : Db) (locked : ProgressRow)
      → operation_of c.player_id c.operation_id db ≡ none
      → progress_of c.player_id db ≡ some locked
      → locked.schema_version ≤ progress_schema_version
      → apply_quest lib c now db ≡ (ok tt, db')
      → Advanced c now db db'
  unfolding apply_quest
  apply_quest-Advanced c now db db' locked fresh h version e =
      elim (fenced_row-cases c.player_id c.room_id c.fencing_token c.expected_revision now db) [
        | inl refused ↦ absurd (ground arith)
        | inr (row, f, eq) ↦ elim (Option-cases (advance_quests c row.revision row.quests)) [
          | inl bad ↦ absurd (ground (arith, f.found))
          | inr (a, good) ↦ record {
            row = row;
            advance = a;
            fence = f;
            version = ground (arith, f.found);
            moved = good;
            state = ground (arith, f.found);
          }
        ]
      ]

  pub quest_transaction-fresh :
      (c : QuestCommit) (now : ℕ) (db db' : Db)
      → operation_of c.player_id c.operation_id db ≡ none
      → quest_transaction lib up c now db ≡ (ok tt, db')
      → Advanced c now db db'
  unfolding quest_transaction
  quest_transaction-fresh c now db db' fresh e = elim (Option-cases (progress_of c.player_id db)) [
    | inl absent ↦ absurd (ground arith)
    | inr (row, h) ↦ apply_quest-Advanced c now db db' row fresh h (ground arith) (ground arith)
  ]

  -- A commit that succeeds has committed its transaction.
  pub commit_quest-eq :
      (read : Link) (c : QuestCommit) (now : ℕ) (db db' : Db) {s : ProgressSnapshot}
      → commit_quest lib up read c now db ≡ (ok s, db')
      → (invalid_request c ≡ false)
        × (quest_transaction lib up c now db ≡ (ok tt, db'))
        × (get_progress_snapshot read c.player_id db' ≡ (ok s, db'))
  unfolding commit_quest
  commit_quest-eq read c now db db' {s} e =
      let mid = (quest_transaction lib up c now db).1 in
      ground (arith, get_progress_snapshot-same read c.player_id mid)

  -- The row that a fresh commit has written is the one that it answers with.
  pub answers_written :
      (c : QuestCommit) (now : ℕ) (db db' : Db) {s : ProgressSnapshot}
      → operation_of c.player_id c.operation_id db ≡ none
      → commit_quest lib up up c now db ≡ (ok s, db')
      → (k : Advanced c now db db') × (progress_of c.player_id db'
          ≡ some (advanced_row c k.advance k.row))
        × (s ≡ snapshot_of (advanced_row c k.advance k.row))
  answers_written c now db db' {s} fresh e =
      let (valid, t, r) = commit_quest-eq up c now db db' {s = s} e in
      let k = quest_transaction-fresh c now db db' fresh t in
      let (row, found, _, answer) = get_progress_snapshot-eq up c.player_id db' db' {s = s} r in
      let stored = advanced_db-progress c k.advance k.row db k.fence.found in
      let written : progress_of c.player_id db' ≡ some (advanced_row c k.advance k.row) =
        ground (arith, k.state, stored) in
      (k, written, ground (arith, found, written, answer))
