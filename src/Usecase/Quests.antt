-- ===== src/Usecase/Quests.antt =====
-- Backend/usecase/service.go: the quest catalog. Clients choose neither what a quest requires nor
-- what it pays.
use g_server.Common.{ℕ, Option, none, some, [], ◌∷◌, String, Dict, lookup}

pub record QuestDefinition : Type 0 where
  pub objectives : Dict ℕ
  pub reward : Dict ℕ

abbrev pub quest_catalog : Dict QuestDefinition
quest_catalog =
    ("starter_collect", record { objectives = ("collect_coin", 2) ∷ []; reward = ("gem", 1) ∷ [] })
    ∷ (
      "forest_forage",
      record { objectives = ("collect_coin", 5) ∷ []; reward = ("gem", 2) ∷ ("coin", 3) ∷ [] },
    )
    ∷ ("gem_hunter", record { objectives = ("collect_gem", 1) ∷ []; reward = ("coin", 5) ∷ [] })
    ∷ []

unfoldable pub quest_requirement : String → String → Option ℕ
quest_requirement quest objective = elim (lookup quest quest_catalog) [
  | none ↦ none
  | some q ↦ lookup objective q.objectives
]

unfoldable pub quest_reward : String → Dict ℕ
quest_reward quest = elim (lookup quest quest_catalog) [ none ↦ [] | some q ↦ q.reward ]
