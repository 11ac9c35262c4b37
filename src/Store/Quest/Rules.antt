-- ===== src/Store/Quest/Rules.antt =====
-- The quest rules: progress is bounded, it counts each commit, and a quest completes once.
use g_server.Common.{
  ℕ, ◌+◌, ◌≤◌, String, ◌≡◌, subst, inl, inr, true, false, Option, none, some, List, [], ◌∷◌, arith,
  if◌then◌else◌, ◌==◌, number_key, text_key, text_iff, Bool-cases, Option-cases, find, Dict, insert,
  lookup-insert, amount_of,
}
use g_server.Domain.{QuestCommit, QuestState, QuestObjective}
use g_server.Store.Quest.{
  advance_objectives, advance_quest, advance_quests, Advance, is_complete, new_quest, grant_reward,
  keep_quest, replace_quest,
}
use Prim.Native.Nat.{min}

abbrev pub All {ℓ} : {A : Type ℓ} → (A → Type 0) → List A → Type 0
All P [] = Unit
All P (x ∷ xs) = P x × All P xs

-- No objective is recorded beyond what it requires.
abbrev pub IsBounded : List QuestObjective → Type 0
IsBounded = All λ o. o.progress ≤ o.required

-- … and a quest counts as completed just when none of its objectives falls short.
pub record IsSound (q : QuestState) : Type 0 where
  pub bounded : IsBounded q.objectives
  pub completed : q.completed ≡ is_complete q.objectives

abbrev pub find_quest : String → List QuestState → Option QuestState
find_quest id = find λ q. q.quest_id == id

abbrev pub find_objective : String → List QuestObjective → Option QuestObjective
find_objective id = find λ o. o.objective_id == id

abbrev pub progress_in : Option QuestObjective → ℕ
progress_in none = 0
progress_in (some o) = o.progress

advance_objectives-IsBounded :
    (c : QuestCommit) (os os' : List QuestObjective)
    → IsBounded os
    → advance_objectives c os ≡ some os'
    → IsBounded os'
unfolding advance_objectives
advance_objectives-IsBounded c [] os' b e = ground arith
advance_objectives-IsBounded c (o ∷ os) os' b e = elim (Option-cases (advance_objectives c os)) [
  | inl bad ↦ ground arith
  | inr (rest, good) ↦ ground (arith, advance_objectives-IsBounded c os rest b.1 good)
]

-- The objective of the commit gains its amount, up to what is required; the others keep theirs.
pub advance_objectives-find :
    (c : QuestCommit) (os os' : List QuestObjective) (id : String)
    → advance_objectives c os ≡ some os'
    → find_objective id os' ≡ (
        if c.objective_id == id
        then some (record {
          objective_id = c.objective_id;
          progress = min c.required (progress_in (find_objective c.objective_id os) + c.amount);
          required = c.required;
        })
        else find_objective id os)
unfolding advance_objectives find
advance_objectives-find c [] os' id e = ground (arith, text_iff c.objective_id id)
advance_objectives-find c (o ∷ os) os' id e = elim (Option-cases (advance_objectives c os)) [
  | inl bad ↦ ground (
    arith,
    text_iff c.objective_id id,
    text_iff o.objective_id c.objective_id,
    text_iff o.objective_id id,
  )
  | inr (rest, good) ↦ ground (
    arith,
    text_iff c.objective_id id,
    text_iff o.objective_id c.objective_id,
    text_iff o.objective_id id,
    advance_objectives-find c os rest id good,
  )
]

-- A commit keeps the quest sound, and its completion is decided anew.
advance_quest-IsSound :
    (c : QuestCommit) (revision : ℕ) (q q' : QuestState)
    → IsBounded q.objectives
    → advance_quest c revision q ≡ some q'
    → IsSound q'
unfolding advance_quest
advance_quest-IsSound c revision q q' v e =
    elim (Option-cases (advance_objectives c q.objectives)) [
      | inl bad ↦ absurd (ground arith)
      | inr (os, good) ↦ record {
        bounded = ground (arith, advance_objectives-IsBounded c q.objectives os v good);
        completed = ground arith;
      }
    ]

pub advance_quests-IsSound :
    (c : QuestCommit) (revision : ℕ) (qs : List QuestState) {a : Advance}
    → All IsSound qs
    → advance_quests c revision qs ≡ some a
    → All IsSound a.quests
unfolding advance_quests
advance_quests-IsSound c revision [] {a} v e =
    elim (Option-cases (advance_quest c revision (new_quest c))) [
      | inl bad ↦ absurd (ground arith)
      | inr (q, good) ↦
          let fits : replace_quest (new_quest c) [] q ≡ a = ground arith in
          subst (λ (x : Advance). All IsSound x.quests) fits
            (advance_quest-IsSound c revision (new_quest c) q tt good, tt)
    ]
advance_quests-IsSound c revision (q ∷ qs) {a} v e = elim (Bool-cases (q.quest_id == c.quest_id)) [
  | inl here ↦ elim (Option-cases (advance_quest c revision q)) [
    | inl bad ↦ absurd (ground arith)
    | inr (q', good) ↦
        let fits : replace_quest q qs q' ≡ a = ground arith in
        subst (λ (x : Advance). All IsSound x.quests) fits
          (advance_quest-IsSound c revision q q' v.0.bounded good, v.1)
  ]
  | inr there ↦ elim (Option-cases (advance_quests c revision qs)) [
    | inl bad ↦ absurd (ground arith)
    | inr (a', good) ↦
        let fits : keep_quest q a' ≡ a = ground arith in
        subst (λ (x : Advance). All IsSound x.quests) fits
          (v.0, advance_quests-IsSound c revision qs v.1 good)
  ]
]

-- An objective that is met stays met.
advance_objectives-is_complete :
    (c : QuestCommit) (os os' : List QuestObjective) {o : QuestObjective}
    → find_objective c.objective_id os ≡ some o
    → is_complete os ≡ true
    → advance_objectives c os ≡ some os'
    → is_complete os' ≡ true
unfolding advance_objectives is_complete find
advance_objectives-is_complete c [] os' {o} h full e = ground arith
advance_objectives-is_complete c (x ∷ os) os' {o} h full e =
    elim (Option-cases (advance_objectives c os)) [
      | inl bad ↦ ground (arith, text_iff x.objective_id c.objective_id)
      | inr (rest, good) ↦ ground (
        arith,
        text_iff x.objective_id c.objective_id,
        advance_objectives-is_complete c os rest {o = o},
      )
    ]

-- A quest that is completed pays nothing more for an objective that it has recorded.
pub completed_pays_nothing :
    (c : QuestCommit) (revision : ℕ) (qs : List QuestState) {q : QuestState} {o : QuestObjective}
    {a : Advance}
    → All IsSound qs
    → find_quest c.quest_id qs ≡ some q
    → find_objective c.objective_id q.objectives ≡ some o
    → q.completed ≡ true
    → advance_quests c revision qs ≡ some a
    → a.completes ≡ false
unfolding advance_quests find
completed_pays_nothing c revision [] {q} {o} {a} v h k full e = ground arith
completed_pays_nothing c revision (x ∷ qs) {q} {o} {a} v h k full e =
    elim (Bool-cases (x.quest_id == c.quest_id)) [
      | inl here ↦ ground arith
      | inr there ↦ elim (Option-cases (advance_quests c revision qs)) [
        | inl bad ↦ absurd (ground arith)
        | inr (a', good) ↦
            let rest =
              completed_pays_nothing c revision qs {q = q} {o = o} {a = a'} v.1 (ground arith) k
                full good in
            ground (arith, rest)
      ]
    ]

abbrev pub total_of : String → Dict ℕ → ℕ
total_of item [] = 0
total_of item ((i, n) ∷ reward) = (if i == item then n else 0) + total_of item reward

-- The reward adds to each item what it lists of it.
pub amount_of-grant_reward :
    (item : String) (reward inventory : Dict ℕ)
    → amount_of item (grant_reward reward inventory)
      ≡ amount_of item inventory + total_of item reward
unfolding grant_reward
amount_of-grant_reward item [] inventory = omega arith
amount_of-grant_reward item ((i, n) ∷ reward) inventory = ground (
  arith,
  text_iff i item,
  lookup-insert i item (amount_of i inventory + n) inventory,
  amount_of-grant_reward item reward (insert i (amount_of i inventory + n) inventory),
)
