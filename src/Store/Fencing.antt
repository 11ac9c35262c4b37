-- ===== src/Store/Fencing.antt =====
-- A room that has lost its lease writes no more: the three commits of Backend/infra/postgres.go
-- against the history of a player's leases.
use g_server.Common.{ℕ, ◌<◌, String, ◌≡◌, ◌≢◌, none, arith, number_key, text_key}
use g_server.Domain.{
  SessionLease, ProgressCommit, EquipmentCommit, QuestCommit, OperationResult, ProgressSnapshot,
}
use g_server.Libs.{Libs}
use g_server.Store.{Db, ok, up, ProgressRow}
use g_server.Store.Lease.{acquire_session}
use g_server.Store.Lease.Grant.{current_token}
use g_server.Store.Lease.Fencing.{History, granted_tokens_grow}
use g_server.Store.Operation.{operation_of}
use g_server.Store.Operation.Fence.{Fenced}
use g_server.Store.Progress.{commit_progress}
use g_server.Store.Progress.Effect.{commit_progress-fresh}
use g_server.Store.Equipment.{commit_equipment}
use g_server.Store.Equipment.Effect.{equipment_transaction-fresh, commit_equipment-eq}
use g_server.Store.Quest.{commit_quest}
use g_server.Store.Quest.Written.{commit_quest-eq, quest_transaction-fresh}

not-Fenced :
    (player room : String) (token expected now : ℕ) (db : Db) (row : ProgressRow)
    → token < current_token player db
    → ¬ Fenced player room token expected now db row
not-Fenced player room token expected now db row h f = ground (arith, f.held, f.live)

module _ (lib : Libs) where
  not_progress :
      (c : ProgressCommit) (now : ℕ) (db : Db)
      → operation_of c.player_id c.operation_id db ≡ none
      → c.fencing_token < current_token c.player_id db
      → (r : OperationResult) → (commit_progress lib up c now db).0 ≢ ok r
  not_progress c now db fresh h r e =
      let (_, _, k) =
        commit_progress-fresh lib c now db (commit_progress lib up c now db).1 {r = r} fresh
          (ground (arith, e)) in
      not-Fenced c.player_id c.room_id c.fencing_token c.expected_revision now db k.row h k.fence

  not_equipment :
      (c : EquipmentCommit) (now : ℕ) (db : Db)
      → operation_of c.player_id c.operation_id db ≡ none
      → c.fencing_token < current_token c.player_id db
      → (s : ProgressSnapshot) → (commit_equipment lib up c now db).0 ≢ ok s
  not_equipment c now db fresh h s e =
      let db' = (commit_equipment lib up c now db).1 in
      let (_, t) = commit_equipment-eq lib up c now db db' {s = s} (ground (arith, e)) in
      let k = equipment_transaction-fresh lib c now db db' {s = s} fresh t in
      not-Fenced c.player_id c.room_id c.fencing_token c.expected_revision now db k.row h k.fence

  not_quest :
      (c : QuestCommit) (now : ℕ) (db : Db)
      → operation_of c.player_id c.operation_id db ≡ none
      → c.fencing_token < current_token c.player_id db
      → (s : ProgressSnapshot) → (commit_quest lib up up c now db).0 ≢ ok s
  not_quest c now db fresh h s e =
      let db' = (commit_quest lib up up c now db).1 in
      let (_, t, _) = commit_quest-eq lib up c now db db' {s = s} (ground (arith, e)) in
      let k = quest_transaction-fresh lib c now db db' fresh t in
      not-Fenced c.player_id c.room_id c.fencing_token c.expected_revision now db k.row h k.fence

  -- Once a player's lease has been granted again, and as long as no lease is released, the earlier
  -- one is worthless: a pickup, a change of equipment and a quest commit that are new and carry its
  -- token succeed at no time.
  pub superseded_writes_nothing :
      (player room room' : String) (t t' now : ℕ) (db db₁ db₂ db₃ db₄ : Db) {l l' : SessionLease}
      (p : ProgressCommit) (e : EquipmentCommit) (q : QuestCommit) (r : OperationResult)
      (s : ProgressSnapshot)
      → acquire_session up player room t db ≡ (ok l, db₁)
      → History db₁ db₂
      → acquire_session up player room' t' db₂ ≡ (ok l', db₃)
      → History db₃ db₄
      → (p.player_id ≡ player) × (e.player_id ≡ player) × (q.player_id ≡ player)
      → (p.fencing_token ≡ l.fencing_token)
        × (e.fencing_token ≡ l.fencing_token)
        × (q.fencing_token ≡ l.fencing_token)
      → (operation_of p.player_id p.operation_id db₄ ≡ none)
        × (operation_of e.player_id e.operation_id db₄ ≡ none)
        × (operation_of q.player_id q.operation_id db₄ ≡ none)
      → ((commit_progress lib up p now db₄).0 ≢ ok r)
        × ((commit_equipment lib up e now db₄).0 ≢ ok s)
        × ((commit_quest lib up up q now db₄).0 ≢ ok s)
  superseded_writes_nothing player room room' t t' now db db₁ db₂ db₃ db₄ {l} {l'} p e q r s first h
        second k players tokens fresh =
      let (below, top) =
        granted_tokens_grow player room room' t t' db db₁ db₂ db₃ db₄ {l = l} {l' = l'} first h
          second k in
      let old : l.fencing_token < current_token player db₄ = omega arith in
      (
        not_progress p now db₄ fresh.0 (rw (tokens.0, players.0) old) r,
        not_equipment e now db₄ fresh.1 (rw (tokens.1, players.1) old) s,
        not_quest q now db₄ fresh.2 (rw (tokens.2, players.2) old) s,
      )
