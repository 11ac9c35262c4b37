-- ===== src/Store/Quest/Effect.antt =====
-- What a quest commit checks and writes, in the words of the quest and its objectives.
use g_server.Common.{
  ℕ, ◌+◌, String, ◌≡◌, sym, subst, true, not, ◌&&◌, ◌==◌, ◌↔◌, none, some, arith, if◌then◌else◌,
  number_key, text_key, amount_of,
}
use g_server.Domain.{QuestState, QuestCommit, ProgressSnapshot}
use g_server.Libs.{Libs}
use g_server.Store.{Db, ok, up, ProgressRow}
use g_server.Store.Operation.{operation_of, snapshot_of}
use g_server.Store.Operation.Fence.{Fenced}
use g_server.Store.Version.{progress_of}
use g_server.Store.Quest.{commit_quest}
use g_server.Store.Quest.Rules.{
  All, IsSound, advance_quests-IsSound, advance_objectives-find, total_of, amount_of-grant_reward,
  find_quest, find_objective, progress_in,
}
use g_server.Store.Quest.Moved.{
  advance_quests-Moved, was_completed, objectives_in, AreMet, is_complete-AreMet,
}
use Prim.Native.Nat.{min}
use g_server.Store.Quest.Written.{quest_record, advanced_db-operation, answers_written}

module _ (lib : Libs) where
  -- A fresh commit comes from the room that holds the live lease under its token, and from a caller
  -- that knew the revision. Of the quests it changes the one it names, or adds it, and of that quest
  -- the objective it names: the objective gains the amount, up to what is required, and the quest is
  -- completed just when each objective has what it requires. The reward is paid just when the quest
  -- was not completed before and is so now. The revision moves on by one, the rest of the row stays,
  -- the operation is recorded, and the answer is the row that is stored.
  pub record QuestEffect (c : QuestCommit) (now : ℕ) (db db' : Db) (item : String)
      (s : ProgressSnapshot) : Type 0 where
    pub row : ProgressRow
    pub quest : QuestState
    pub fence : Fenced c.player_id c.room_id c.fencing_token c.expected_revision now db row
    pub quests :
        (id : String)
        → find_quest id s.quests
          ≡ (if c.quest_id == id then some quest else find_quest id row.quests)
    pub objectives :
        (id : String)
        → find_objective id quest.objectives ≡ (
            if c.objective_id == id
            then some (record {
              objective_id = c.objective_id;
              progress = min c.required (
                  progress_in (
                    find_objective c.objective_id
                      (objectives_in (find_quest c.quest_id row.quests)))
                  + c.amount);
              required = c.required;
            })
            else find_objective id (objectives_in (find_quest c.quest_id row.quests)))
    pub completed : (quest.completed ≡ true) ↔ AreMet quest.objectives
    pub moved_on : quest.revision ≡ row.revision + 1
    pub paid_out :
        amount_of item s.inventory
        ≡ amount_of item row.inventory
          + (if not (was_completed (find_quest c.quest_id row.quests)) && quest.completed
              then total_of item c.reward
              else 0)
    pub answered : s ≡ record (snapshot_of row) {
      revision = row.revision + 1;
      quests = s.quests;
      inventory = s.inventory;
    }
    pub written :
        progress_of c.player_id db'
        ≡ some
            (record row { revision = row.revision + 1; quests = s.quests; inventory = s.inventory })
    pub recorded :
        operation_of c.player_id c.operation_id db' ≡ some (quest_record lib c (row.revision + 1))

  -- A quest commit whose operation is not recorded and that succeeds has the effect `QuestEffect`,
  -- for every item.
  pub commit_quest_effect :
      (c : QuestCommit) (now : ℕ) (db db' : Db) (item : String) {s : ProgressSnapshot}
      → operation_of c.player_id c.operation_id db ≡ none
      → commit_quest lib up up c now db ≡ (ok s, db')
      → QuestEffect c now db db' item s
  commit_quest_effect c now db db' item {s} fresh e =
      let (k, written, shown) = answers_written lib c now db db' {s = s} fresh e in
      let v = advance_quests-Moved c k.row.revision k.row.quests k.moved in
      record {
        row = k.row;
        quest = v.quest;
        fence = k.fence;
        quests = λ id. ground (arith, shown, v.found id);
        objectives = λ id.
            advance_objectives-find c (objectives_in (find_quest c.quest_id k.row.quests))
              v.quest.objectives id v.objectives;
        completed = rw v.completed (is_complete-AreMet v.quest.objectives);
        moved_on = v.revision_lem;
        paid_out =
            ground
              (arith, shown, v.completes, amount_of-grant_reward item c.reward k.row.inventory);
        answered = ground (arith, shown);
        written = ground (arith, shown, written);
        recorded = ground (arith, k.state, advanced_db-operation lib c k.advance k.row db fresh);
      }

  -- A commit that is new and succeeds leaves a player whose quests are sound with sound quests: none
  -- of the objectives beyond what it requires, and a quest completed just when none falls short.
  pub commit_quest-IsSound :
      (c : QuestCommit) (now : ℕ) (db db' : Db) {row : ProgressRow} {s : ProgressSnapshot}
      → progress_of c.player_id db ≡ some row
      → All IsSound row.quests
      → operation_of c.player_id c.operation_id db ≡ none
      → commit_quest lib up up c now db ≡ (ok s, db')
      → All IsSound s.quests
  commit_quest-IsSound c now db db' {row} {s} found v fresh e =
      let (k, _, shown) = answers_written lib c now db db' {s = s} fresh e in
      let same : row ≡ k.row = ground (arith, found, k.fence.found) in
      subst (λ (x : ProgressSnapshot). All IsSound x.quests) (sym shown)
        (advance_quests-IsSound c k.row.revision k.row.quests
          (subst (λ (x : ProgressRow). All IsSound x.quests) same v) k.moved)
