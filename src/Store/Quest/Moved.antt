-- ===== src/Store/Quest/Moved.antt =====
-- Where a commit finds its quest, and what becomes of it.
use g_server.Common.{
  ℕ, ◌+◌, ◌≤◌, String, ◌≡◌, ◌↔◌, refl, inl, inr, true, false, Bool, not, ◌&&◌, Option, none, some,
  List, [], ◌∷◌, arith, if◌then◌else◌, ◌==◌, number_key, text_key, text_iff, Bool-cases,
  Option-cases, find,
}
use g_server.Domain.{QuestCommit, QuestState, QuestObjective}
use g_server.Store.Quest.{
  advance_objectives, advance_quest, advance_quests, Advance, is_complete, new_quest,
}
use g_server.Store.Quest.Rules.{All, find_quest}

abbrev pub was_completed : Option QuestState → Bool
was_completed none = false
was_completed (some q) = q.completed

abbrev pub objectives_in : Option QuestState → List QuestObjective
objectives_in none = []
objectives_in (some q) = q.objectives

-- Every objective has what it requires.
abbrev pub AreMet : List QuestObjective → Type 0
AreMet = All λ o. o.required ≤ o.progress

pub is_complete-AreMet : (os : List QuestObjective) → (is_complete os ≡ true) ↔ AreMet os
unfolding is_complete
is_complete-AreMet [] = (λ h. tt, λ h. refl)
is_complete-AreMet (o ∷ os) =
    let (there, back) = is_complete-AreMet os in
    (λ h. (ground (arith, h), there (ground (arith, h))), λ h. ground (arith, h.0, back h.1))

-- The quest of the commit, after it: `qs` are the quests before, `revision` that of the row.
pub record Moved (c : QuestCommit) (revision : ℕ) (qs : List QuestState) (a : Advance)
    : Type 0 where
  pub quest : QuestState
  pub found :
      (id : String)
      → find_quest id a.quests ≡ (if c.quest_id == id then some quest else find_quest id qs)
  pub revision_lem : quest.revision ≡ revision + 1
  pub objectives :
      advance_objectives c (objectives_in (find_quest c.quest_id qs)) ≡ some quest.objectives
  pub completed : quest.completed ≡ is_complete quest.objectives
  pub completes : a.completes ≡ (not (was_completed (find_quest c.quest_id qs)) && quest.completed)

-- What a commit makes of a quest.
record Changed (c : QuestCommit) (revision : ℕ) (q q' : QuestState) : Type 0 where
  id : q'.quest_id ≡ q.quest_id
  revision_lem : q'.revision ≡ revision + 1
  objectives : advance_objectives c q.objectives ≡ some q'.objectives
  completed : q'.completed ≡ is_complete q'.objectives

advance_quest-Changed :
    (c : QuestCommit) (revision : ℕ) (q q' : QuestState)
    → advance_quest c revision q ≡ some q'
    → Changed c revision q q'
unfolding advance_quest
advance_quest-Changed c revision q q' e = elim (Option-cases (advance_objectives c q.objectives)) [
  | inl bad ↦ absurd (ground arith)
  | inr (os, good) ↦ record {
    id = ground arith;
    revision_lem = ground arith;
    objectives = ground arith;
    completed = ground arith;
  }
]

pub advance_quests-Moved :
    (c : QuestCommit) (revision : ℕ) (qs : List QuestState) {a : Advance}
    → advance_quests c revision qs ≡ some a
    → Moved c revision qs a
unfolding advance_quests find
advance_quests-Moved c revision [] {a} e =
    elim (Option-cases (advance_quest c revision (new_quest c))) [
      | inl bad ↦ absurd (ground arith)
      | inr (q, good) ↦
          let v = advance_quest-Changed c revision (new_quest c) q good in
          record {
            quest = q;
            found = λ id. ground (arith, good, e, v.id, text_iff c.quest_id id);
            revision_lem = v.revision_lem;
            objectives = v.objectives;
            completed = v.completed;
            completes = ground (arith, good, e);
          }
    ]
advance_quests-Moved c revision (q ∷ qs) {a} e = elim (Bool-cases (q.quest_id == c.quest_id)) [
  | inl here ↦ elim (Option-cases (advance_quest c revision q)) [
    | inl bad ↦ absurd (ground arith)
    | inr (q', good) ↦
        let v = advance_quest-Changed c revision q q' good in
        record {
          quest = q';
          found = λ id. ground (
            arith,
            here,
            good,
            e,
            v.id,
            text_iff q.quest_id c.quest_id,
            text_iff c.quest_id id,
            text_iff q.quest_id id,
          );
          revision_lem = v.revision_lem;
          objectives = ground (arith, here, v.objectives);
          completed = v.completed;
          completes = ground (arith, here, good, e);
        }
  ]
  | inr there ↦ elim (Option-cases (advance_quests c revision qs)) [
    | inl bad ↦ absurd (ground arith)
    | inr (a', good) ↦
        let v = advance_quests-Moved c revision qs {a = a'} good in
        record {
          quest = v.quest;
          found = λ id. ground (
            arith,
            there,
            good,
            e,
            v.found id,
            text_iff q.quest_id c.quest_id,
            text_iff c.quest_id id,
            text_iff q.quest_id id,
          );
          revision_lem = v.revision_lem;
          objectives = ground (arith, there, v.objectives);
          completed = v.completed;
          completes = ground (arith, there, good, e, v.completes);
        }
  ]
]
