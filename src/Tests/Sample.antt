-- ===== src/Tests/Sample.antt =====
-- The data of the tests: simple library functions, one player, and requests.
use g_server.Common.{String, Bool, true, false, some, [], ◌∷◌, ◌==◌, number_key, text_key}
use Prim.Native.String.{compare}
use Prim.Native.Nat.{Ordering}
use g_server.Domain.{SessionLease, ProgressCommit, EquipmentCommit, QuestCommit}
use g_server.Libs.{Libs, Pickup}
use g_server.Store.{Db, empty, ProgressRow, PlayerRow}

abbrev pub is_before : String → String → Bool
is_before s t = elim (compare s t) [ Ordering.lt ↦ true | _ ↦ false ]

-- A payload is its item; a hash is its text.
abbrev pub lib : Libs
lib = record {
  sha256_hex = λ s. s;
  marshal = λ f. "json";
  pickup_of = λ s. some (record { item = s; amount = 1 });
  jsonb_in = λ s. some [];
  jsonb_out = λ fields. "{}";
  password_matches = λ password hash. password == hash;
  text_before = is_before;
}

abbrev pub ann : PlayerRow
ann = record { player_id = "ann"; username = "Ann"; password_hash = "secret" }

-- A player who has never played.
abbrev pub fresh : Db
fresh = record empty { players = ann ∷ [] }

abbrev pub ann_lease : SessionLease
ann_lease = record {
  player_id = "ann";
  room_id = "g0-room";
  fencing_token = 1;
  lease_expires_at = 30000000;
}

abbrev pub ann_progress : ProgressRow
ann_progress = record {
  player_id = "ann";
  schema_version = 2;
  revision = 4;
  inventory = ("coin", 3) ∷ ("sword", 1) ∷ [];
  equipment = ("head", "cap") ∷ [];
  unlocks = [];
  quests = [];
}

-- The player in a room, with a live lease.
abbrev pub playing : Db
playing = record fresh { progress = ann_progress ∷ []; leases = ann_lease ∷ [] }

abbrev pub pickup : ProgressCommit
pickup = record {
  player_id = "ann";
  room_id = "g0-room";
  fencing_token = 1;
  expected_revision = 4;
  operation_id = "op-1";
  payload = "coin";
}

-- What the payload of `pickup` decodes to.
abbrev pub coin : Pickup
coin = record { item = "coin"; amount = 1 }

abbrev pub equip : EquipmentCommit
equip = record {
  player_id = "ann";
  room_id = "g0-room";
  fencing_token = 1;
  expected_revision = 4;
  operation_id = "op-2";
  slot = "weapon";
  item_id = "sword";
  equipped = true;
}

abbrev pub quest : QuestCommit
quest = record {
  player_id = "ann";
  room_id = "g0-room";
  fencing_token = 1;
  expected_revision = 4;
  operation_id = "op-3";
  quest_id = "starter_collect";
  objective_id = "collect_coin";
  required = 2;
  amount = 2;
  reward = ("gem", 1) ∷ [];
}
