-- ===== src/Store/Quest/Retry.antt =====
-- A quest commit counts once, however often it is sent.
use g_server.Common.{
  ℕ, ◌+◌, ◌≤◌, ◌≡◌, true, ◌&&◌, none, some, arith, number_key, text_key, text_refl, lookup,
}
use g_server.Domain.{QuestCommit, ProgressSnapshot}
use g_server.Libs.{Libs}
use g_server.Store.{Db, Link, ok, err, up, ack_lost, unavailable, ProgressRow}
use g_server.Store.Operation.{operation_of, has_text, has_number}
use g_server.Store.Operation.Fence.{get_progress_snapshot-same}
use g_server.Store.Version.{progress_of, progress_schema_version}
use g_server.Store.Quest.{commit_quest, quest_transaction, quest_fields, replay_quest}
use g_server.Store.Quest.Written.{
  quest_record, quest_transaction-fresh, commit_quest-eq, advanced_row, advanced_db-progress,
  advanced_db-operation,
}

-- The stored object of a request answers to that request.
fields_match :
    (c : QuestCommit)
    → (has_number "amount" c.amount (quest_fields c)
        && has_text "quest_id" c.quest_id (quest_fields c)
        && has_text "objective_id" c.objective_id (quest_fields c))
      ≡ true
unfolding lookup
fields_match c = ground (arith, text_refl c.quest_id, text_refl c.objective_id)

module _ (lib : Libs) where
  replay_recorded :
      (c : QuestCommit) (later : ℕ) (db : Db) (row : ProgressRow) (revision : ℕ)
      → progress_of c.player_id db ≡ some row
      → row.schema_version ≤ progress_schema_version
      → operation_of c.player_id c.operation_id db ≡ some (quest_record lib c revision)
      → quest_transaction lib up c later db ≡ (ok tt, db)
  unfolding quest_transaction replay_quest
  replay_recorded c later db row revision found version known = ground (arith, fields_match c)

  lost_ack :
      (c : QuestCommit) (now : ℕ) (db db' : Db)
      → quest_transaction lib up c now db ≡ (ok tt, db')
      → quest_transaction lib ack_lost c now db ≡ (err unavailable, db')
  unfolding quest_transaction
  lost_ack c now db db' e = ground arith

  -- A quest commit that is new and succeeds is written also when its answer cannot be read or when
  -- the acknowledgement is lost, and sent again, at any time, it writes nothing more and select the
  -- same answer.
  pub commit_quest_once :
      (c : QuestCommit) (now later : ℕ) (db db' : Db) {s : ProgressSnapshot}
      → operation_of c.player_id c.operation_id db ≡ none
      → commit_quest lib up up c now db ≡ (ok s, db')
      → ((read : Link) → (commit_quest lib up read c now db).1 ≡ db')
        × ((read : Link) → commit_quest lib ack_lost read c now db ≡ (err unavailable, db'))
        × (commit_quest lib up up c later db' ≡ (ok s, db'))
  unfolding commit_quest
  commit_quest_once c now later db db' {s} fresh e =
      let (valid, t, r) = commit_quest-eq lib up c now db db' {s = s} e in
      let k = quest_transaction-fresh lib c now db db' fresh t in
      let again =
        replay_recorded c later db' (advanced_row c k.advance k.row) (k.row.revision + 1)
          (ground (arith, k.state, advanced_db-progress lib c k.advance k.row db k.fence.found))
          k.version
          (ground (arith, k.state, advanced_db-operation lib c k.advance k.row db fresh)) in
      (
        λ read. ground (arith, valid, t, get_progress_snapshot-same read c.player_id db'),
        λ read. ground (arith, valid, lost_ack c now db db' t),
        ground (arith, valid, again, r),
      )
