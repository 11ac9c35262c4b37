-- ===== src/Domain.antt =====
-- Backend/domain/domain.go: the constants and the records that the layers exchange. An id, a hash
-- and a version is a text; a Go `int` or `int64` is a natural number (what is below zero is refused
-- by the guards `< 1` that refuse zero), a `time.Time` a count of microseconds.
mod Progress
pub use Progress.*
use g_server.Common.{ℕ, String}

abbrev pub preset : String
preset = "exploration"

abbrev pub content : String
content = "g0-empty-v1"

abbrev pub combat_preset : String
combat_preset = "coop_combat"

abbrev pub combat_content : String
combat_content = "g4-coop-combat-v1"

abbrev pub room : String
room = "g0-room"

abbrev pub proto : ℕ
proto = 1

abbrev pub default_map : String
default_map = "starter_valley"

abbrev pub default_map_content : String
default_map_content = "starter_valley-1"

abbrev pub default_map_authority : String
default_map_authority = "starter_valley-authority-1"

abbrev pub forest_map : String
forest_map = "forest_sanctuary"

abbrev pub forest_map_content : String
forest_map_content = "forest_sanctuary-5"

abbrev pub forest_map_authority : String
forest_map_authority = "forest_sanctuary-authority-4"

abbrev pub default_api_version : String
default_api_version = "1.0"

abbrev pub default_min_engine_version : String
default_min_engine_version = "1.0.0"

pub record Player : Type 0 where
  pub id : String
  pub password_hash : String

pub record Session : Type 0 where
  pub player_id : String
  pub token_hash : String

pub record Ticket : Type 0 where
  pub token : String
  pub player_id : String
  pub room_id : String
  pub preset_id : String
  pub config_hash : String
  pub map_id : String
  pub map_content_version : String
  pub map_authority_version : String
  pub protocol : ℕ
  pub content : String

-- Also a row of the table `room`, whose columns these are.
pub record RoomRecord : Type 0 where
  pub id : String
  pub host : String
  pub protocol_version : ℕ
  pub gameplay_content_hash : String
  pub resolved_config_hash : String
  pub status : String
  pub port : ℕ
  pub generation : ℕ
  pub capacity : ℕ
  pub used_players : ℕ
  pub last_heartbeat : ℕ
  pub map_id : String
  pub map_content_version : String
  pub map_authority_version : String

-- Also a row of the table `active_player_session`.
pub record SessionLease : Type 0 where
  pub player_id : String
  pub room_id : String
  pub fencing_token : ℕ
  pub lease_expires_at : ℕ
