-- ===== src/Domain/Progress.antt =====
-- Backend/domain/domain.go: a player's progress and the requests that change it. A Go map with text
-- keys is a `Dict`.
use g_server.Common.{ℕ, String, Bool, List, Dict}

pub record QuestObjective : Type 0 where
  pub objective_id : String
  pub progress : ℕ
  pub required : ℕ

pub record QuestState : Type 0 where
  pub quest_id : String
  pub revision : ℕ
  pub objectives : List QuestObjective
  pub completed : Bool

pub record ProgressSnapshot : Type 0 where
  pub player_id : String
  pub schema_version : ℕ
  pub revision : ℕ
  pub inventory : Dict ℕ
  pub equipment : Dict String
  pub unlocks : List String
  pub quests : List QuestState

pub record QuestCommit : Type 0 where
  pub player_id : String
  pub room_id : String
  pub fencing_token : ℕ
  pub expected_revision : ℕ
  pub operation_id : String
  pub quest_id : String
  pub objective_id : String
  pub required : ℕ
  pub amount : ℕ
  pub reward : Dict ℕ

pub record QuestSnapshot : Type 0 where
  pub player_id : String
  pub revision : ℕ
  pub unlocks : List String

pub record ProgressQuery : Type 0 where
  pub player_id : String
  pub operation_id : String

-- `payload` is the JSON text as it came.
pub record ProgressCommit : Type 0 where
  pub player_id : String
  pub room_id : String
  pub fencing_token : ℕ
  pub expected_revision : ℕ
  pub operation_id : String
  pub payload : String

pub record EquipmentCommit : Type 0 where
  pub player_id : String
  pub room_id : String
  pub fencing_token : ℕ
  pub expected_revision : ℕ
  pub operation_id : String
  pub slot : String
  pub item_id : String
  pub equipped : Bool

-- A scalar field of a JSON object; what is neither of these is `other`.
pub data JsonValue : Type 0 where
  text : String → JsonValue
  number : ℕ → JsonValue
  boolean : Bool → JsonValue
  other : JsonValue

-- A stored operation result, a JSON object.
abbrev pub Fields : Type 0
Fields = Dict JsonValue

pub record OperationResult : Type 0 where
  pub operation_id : String
  pub status : String
  pub revision : ℕ
  pub payload : String
  pub inventory : Dict ℕ

abbrev pub operation_succeeded : String
operation_succeeded = "succeeded"
