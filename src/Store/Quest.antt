-- ===== src/Store/Quest.antt =====
-- Backend/infra/postgres.go: CommitQuest, which advances one objective of a quest and pays the
-- reward when the quest is completed.
pub mod Rules
pub mod Moved
pub mod Written
pub mod Effect
pub mod Retry
use g_server.Common.{
  ℕ, ◌+◌, Bool, true, false, not, ◌&&◌, ◌||◌, Option, none, some, List, [], ◌∷◌, String, Dict, ltb,
  insert, amount_of, ◌==◌, number_key, text_key, if◌then◌else◌,
}
use mathlib.Core.Option
use g_server.Domain.{
  QuestCommit, QuestState, QuestObjective, ProgressSnapshot, Fields, JsonValue, text, number,
  operation_succeeded,
}
use g_server.Libs.{Libs}
use g_server.Store.{
  ProgressRow, OperationRow, Query, Link, transact, pure, raise_if, select, or_raise, ◌>>=◌, ◌>>◌,
  invalid_quest, quest_conflict, requirement_mismatch, add_within, max_bigint,
}
use g_server.Store.Version.{select_progress, lock_progress_version}
use g_server.Store.Operation.{
  operation_of, fenced_row, write_progress, insert_operation, has_text, has_number,
  get_progress_snapshot,
}

-- The guard before the transaction.
unfoldable pub invalid_request : QuestCommit → Bool
invalid_request c =
    c.player_id == ""
    || c.room_id == ""
    || c.quest_id == ""
    || c.objective_id == ""
    || ltb c.required 1
    || ltb c.amount 1
    || ltb c.required c.amount
    || c.operation_id == ""
    || ltb c.fencing_token 1

-- The JSON object of a request, by the struct's tags; the reward has the tag "-".
abbrev pub quest_fields : QuestCommit → Fields
quest_fields c =
    ("player_id", text c.player_id)
    ∷ ("room_id", text c.room_id)
    ∷ ("fencing_token", number c.fencing_token)
    ∷ ("expected_revision", number c.expected_revision)
    ∷ ("operation_id", text c.operation_id)
    ∷ ("quest_id", text c.quest_id)
    ∷ ("objective_id", text c.objective_id)
    ∷ ("required", number c.required)
    ∷ ("amount", number c.amount)
    ∷ []

-- `objective.Progress += in.Amount`, cut off at what is required.
abbrev pub bump : QuestCommit → QuestObjective → QuestObjective
bump c o = record o {
  progress = if ltb o.required (o.progress + c.amount) then o.required else o.progress + c.amount;
}

abbrev pub new_objective : QuestCommit → QuestObjective
new_objective c = record { objective_id = c.objective_id; progress = 0; required = c.required }

-- The first objective with the id, or a new one at the end; `none` if the requirements differ.
unfoldable pub advance_objectives : QuestCommit → List QuestObjective → Option (List QuestObjective)
advance_objectives c [] = some (bump c (new_objective c) ∷ [])
advance_objectives c (o ∷ os) =
    if o.objective_id == c.objective_id
    then (if o.required == c.required then some (bump c o ∷ os) else none)
    else Option.map (λ rest. o ∷ rest) (advance_objectives c os)

-- No objective that is recorded falls short.
unfoldable pub is_complete : List QuestObjective → Bool
is_complete [] = true
is_complete (o ∷ os) = not (ltb o.progress o.required) && is_complete os

-- The quest after the commit; `revision` is the progress row's before it.
unfoldable pub advance_quest : QuestCommit → ℕ → QuestState → Option QuestState
unfolding is_complete
advance_quest c revision q =
    Option.map
      (λ os. record q { revision = revision + 1; objectives = os; completed = is_complete os })
      (advance_objectives c q.objectives)

abbrev pub new_quest : QuestCommit → QuestState
new_quest c = record { quest_id = c.quest_id; revision = 0; objectives = []; completed = false }

-- A change of the quest list, and whether it completes the quest.
pub record Advance : Type 0 where
  pub quests : List QuestState
  pub completes : Bool

abbrev pub replace_quest : QuestState → List QuestState → QuestState → Advance
replace_quest q qs q' = record { quests = q' ∷ qs; completes = not q.completed && q'.completed }

abbrev pub keep_quest : QuestState → Advance → Advance
keep_quest q a = record a { quests = q ∷ a.quests }

-- The first quest with the id, or a new one at the end.
unfoldable pub advance_quests : QuestCommit → ℕ → List QuestState → Option Advance
unfolding advance_quest
advance_quests c revision [] =
    Option.map (replace_quest (new_quest c) []) (advance_quest c revision (new_quest c))
advance_quests c revision (q ∷ qs) =
    if q.quest_id == c.quest_id
    then Option.map (replace_quest q qs) (advance_quest c revision q)
    else Option.map (keep_quest q) (advance_quests c revision qs)

-- `for itemID, amount := range in.Reward { inventory[itemID] += amount }`.
unfoldable pub grant_reward : Dict ℕ → Dict ℕ → Dict ℕ
grant_reward [] inventory = inventory
grant_reward ((item, amount) ∷ reward) inventory =
    grant_reward reward (insert item (amount_of item inventory + amount) inventory)

unfoldable pub replay_quest : QuestCommit → OperationRow → Query (Unit {0})
replay_quest c old =
    raise_if
      (not (
        has_number "amount" c.amount old.result
        && has_text "quest_id" c.quest_id old.result
        && has_text "objective_id" c.objective_id old.result))
      quest_conflict

module _ (lib : Libs) where
  unfoldable pub apply_quest : QuestCommit → ℕ → Query (Unit {0})
  unfolding write_progress insert_operation
  apply_quest c now = do
    row ← select_progress c.player_id
    a ← or_raise requirement_mismatch (advance_quests c row.revision row.quests)
    let inventory = if a.completes then grant_reward c.reward row.inventory else row.inventory
    fenced ← fenced_row c.player_id c.room_id c.fencing_token c.expected_revision now
    revision ← add_within max_bigint fenced.revision 1
    write_progress c.player_id
        (λ r. record r { revision = revision; quests = a.quests; inventory = inventory })
    insert_operation (record {
      player_id = c.player_id;
      operation_id = c.operation_id;
      payload_hash = lib.sha256_hex (lib.marshal (quest_fields c));
      status = operation_succeeded;
      result = quest_fields c;
      revision = revision;
    })

  unfoldable pub quest_step : QuestCommit → ℕ → Option OperationRow → Query (Unit {0})
  quest_step c now (some old) = replay_quest c old
  quest_step c now none = apply_quest c now

  -- The transaction of the commit.
  unfoldable pub quest_transaction : Link → QuestCommit → ℕ → Query (Unit {0})
  unfolding lock_progress_version quest_step
  quest_transaction link c now = transact link do
    lock_progress_version c.player_id
    old ← select (operation_of c.player_id c.operation_id)
    quest_step c now old

  -- The answer is read after the commit, in a statement of its own.
  unfoldable pub commit_quest : Link → Link → QuestCommit → ℕ → Query ProgressSnapshot
  unfolding invalid_request
  commit_quest link read c now = do
    raise_if (invalid_request c) invalid_quest
    quest_transaction link c now
    get_progress_snapshot read c.player_id
