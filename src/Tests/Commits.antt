-- ===== src/Tests/Commits.antt =====
-- Commits of progress by one player.
use g_server.Common.{
  ◌≡◌, refl, true, false, none, some, [], ◌∷◌, number_key, text_key, find, update, lookup, insert,
}
use g_server.Tests.Sample.{lib, playing, pickup, equip, quest, ann_progress, coin}
use g_server.Domain.{OperationResult, ProgressSnapshot, operation_succeeded}
use g_server.Store.{Link, Db, ok, err, up, ack_lost, unavailable, no_rows, ProgressRow}
use g_server.Store.Operation.{operation_of, fenced_row, get_progress_snapshot, snapshot_of}
use g_server.Store.Progress.{commit_progress, apply_pickup}
use g_server.Store.Progress.Effect.{PickupEffect, picked_db, commit_progress_effect}
use g_server.Store.Equipment.{
  commit_equipment, invalid_request, equipment_transaction, apply_equipment,
}
use g_server.Store.Equipment.Effect.{EquipmentEffect, equipped_db, commit_equipment_effect}
use g_server.Store.Quest.{
  is_complete, commit_quest, quest_transaction, apply_quest, advance_quests, Advance,
  advance_objectives, grant_reward,
}
use g_server.Store.Quest.Effect.{QuestEffect, commit_quest_effect, commit_quest-IsSound}
use g_server.Store.Quest.Written.{advanced_db, advanced_row}
use g_server.Store.Equipment.Retry.{commit_equipment_once}
use g_server.Store.Quest.Retry.{commit_quest_once}
use g_server.Store.Quest.Rules.{All, IsSound}
use g_server.Store.Version.{progress_of}

abbrev picked : Db
picked = picked_db lib pickup coin ann_progress [] playing

abbrev picked_answer : OperationResult
picked_answer = record {
  operation_id = "op-1";
  status = operation_succeeded;
  revision = 5;
  payload = "coin";
  inventory = ("coin", 4) ∷ ("sword", 1) ∷ [];
}

pickup_runs : commit_progress lib up pickup 10 playing ≡ (ok picked_answer, picked)
unfolding commit_progress apply_pickup fenced_row find lookup insert update
pickup_runs = refl

-- At 31 seconds the lease has run out.
pickup_late : commit_progress lib up pickup 31000000 playing ≡ (err no_rows, playing)
unfolding commit_progress apply_pickup fenced_row find lookup insert update
pickup_late = refl

nothing_known : operation_of "ann" "op-1" playing ≡ none
unfolding find
nothing_known = refl

abbrev equipped : Db
equipped = equipped_db lib equip ann_progress playing

abbrev equipped_answer : ProgressSnapshot
equipped_answer = record {
  player_id = "ann";
  schema_version = 0;
  revision = 5;
  inventory = ann_progress.inventory;
  equipment = ("head", "cap") ∷ ("weapon", "sword") ∷ [];
  unlocks = [];
  quests = [];
}

equip_runs : commit_equipment lib up equip 10 playing ≡ (ok equipped_answer, equipped)
unfolding commit_equipment invalid_request equipment_transaction apply_equipment fenced_row find
    lookup insert update
equip_runs = refl

abbrev advance : Advance
advance = record {
  quests =
      record {
        quest_id = "starter_collect";
        revision = 5;
        objectives = record { objective_id = "collect_coin"; progress = 2; required = 2 } ∷ [];
        completed = true;
      }
      ∷ [];
  completes = true;
}

abbrev advanced : Db
unfolding grant_reward
advanced = advanced_db lib quest advance ann_progress playing

abbrev advanced_answer : ProgressSnapshot
unfolding grant_reward
advanced_answer = snapshot_of (advanced_row quest advance ann_progress)

quest_runs : commit_quest lib up up quest 10 playing ≡ (ok advanced_answer, advanced)
unfolding commit_quest invalid_request g_server.Store.Quest.invalid_request quest_transaction
    apply_quest advance_quests advance_objectives get_progress_snapshot grant_reward fenced_row find
    lookup insert update
quest_runs = refl

commit_progress_effect_example : PickupEffect lib pickup 10 playing picked picked_answer
commit_progress_effect_example =
    commit_progress_effect lib pickup 10 playing picked nothing_known pickup_runs

nothing_equipped : operation_of "ann" "op-2" playing ≡ none
unfolding find
nothing_equipped = refl

commit_equipment_effect_example : EquipmentEffect lib equip 10 playing equipped "head"
commit_equipment_effect_example =
    commit_equipment_effect lib equip 10 playing equipped "head" {s = equipped_answer}
      nothing_equipped equip_runs

commit_equipment_once_example :
    (equipped_answer.schema_version ≡ 0)
    × (row : ProgressRow) × (progress_of "ann" playing ≡ some row)
    × (commit_equipment lib up equip 99 equipped
        ≡ (ok (record equipped_answer { schema_version = row.schema_version }), equipped))
commit_equipment_once_example =
    commit_equipment_once lib equip 10 99 playing equipped {s = equipped_answer} nothing_equipped
      equip_runs

nothing_advanced : operation_of "ann" "op-3" playing ≡ none
unfolding find
nothing_advanced = refl

commit_quest_effect_example : QuestEffect lib quest 10 playing advanced "gem" advanced_answer
commit_quest_effect_example =
    commit_quest_effect lib quest 10 playing advanced "gem" nothing_advanced quest_runs

playing_row : progress_of "ann" playing ≡ some ann_progress
unfolding find
playing_row = refl

commit_quest-IsSound_example : All IsSound advanced_answer.quests
commit_quest-IsSound_example =
    commit_quest-IsSound lib quest 10 playing advanced {row = ann_progress} {s = advanced_answer}
      playing_row tt nothing_advanced quest_runs

commit_quest_once_example :
    ((read : Link) → (commit_quest lib up read quest 10 playing).1 ≡ advanced)
    × ((read : Link)
        → commit_quest lib ack_lost read quest 10 playing ≡ (err unavailable, advanced))
    × (commit_quest lib up up quest 99 advanced ≡ (ok advanced_answer, advanced))
commit_quest_once_example =
    commit_quest_once lib quest 10 99 playing advanced {s = advanced_answer} nothing_advanced
      quest_runs

-- The completed quest, asked for its objective once more.
abbrev overdone : Advance
overdone = record {
  quests =
      record {
        quest_id = "starter_collect";
        revision = 6;
        objectives = record { objective_id = "collect_coin"; progress = 2; required = 2 } ∷ [];
        completed = true;
      }
      ∷ [];
  completes = false;
}

quest_again : advance_quests quest 5 advance.quests ≡ some overdone
unfolding advance_quests advance_objectives
quest_again = refl
