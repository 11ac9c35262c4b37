-- ===== src/Usecase/Service.antt =====
-- Backend/usecase/service.go: login, tickets, rooms and progress over the store. A random token is
-- an argument; `now` is the time of the store's transactions.
use g_server.Common.{
  ℕ, Bool, not, ◌&&◌, ◌||◌, [], ◌∷◌, String, ltb, ◌==◌, number_key, text_key, if◌then◌else◌,
}
use g_server.Domain.{
  Session, Ticket, RoomRecord, QuestCommit, ProgressSnapshot, text, number, preset, content,
  combat_preset, combat_content, room, proto, default_map, default_map_content,
  default_map_authority,
}
use g_server.Libs.{Libs}
use g_server.Store.{
  Query, ok, err, Link, pure, raise_if, or_raise, ◌>>=◌, ◌>>◌, unauthorized, rejected,
  version_mismatch, map_unavailable, invalid_capacity,
}
use g_server.Store.Session.{find_player, create_session, find_session}
use g_server.Store.Ticket.{issue_ticket, redeem_ticket}
use g_server.Store.Room.{register_room, allocate_room, release_reservation}
use g_server.Store.Quest.{commit_quest}
use g_server.Usecase.Quests.{quest_requirement, quest_reward}
use g_server.Usecase.Maps.{MapDefinition, map_definition_for}

-- The struct Service without its store, which is the database.
pub record Service : Type 0 where
  pub service_token : String
  pub host : String
  pub port : ℕ

unfoldable pub valid_preset : String → String → ℕ → Bool
valid_preset p c n =
    n == proto && ((p == preset && c == content) || (p == combat_preset && c == combat_content))

module _ (lib : Libs) where
  unfoldable pub config_hash_for : String → String → String
  config_hash_for p c = lib.sha256_hex (
      lib.marshal (
        ("gameplay_content_hash", text c)
        ∷ ("max_players", number 8)
        ∷ ("preset_id", text p)
        ∷ ("protocol_version", number proto)
        ∷ []))

  -- The token and the player's id.
  unfoldable pub login : Link → Link → String → String → String → ℕ → Query (String × String)
  login find create username password token now = do
    x ← find_player find username
    raise_if (not (lib.password_matches password x.password_hash)) unauthorized
    create_session create x.id (lib.sha256_hex token) now
    pure (token, x.id)

  unfoldable pub auth : Link → String → ℕ → Query Session
  auth link token now = find_session link (lib.sha256_hex token) now

  abbrev pub new_ticket : String → String → String → String → String → ℕ → MapDefinition → Ticket
  new_ticket token player room_id p c n m = record {
    token = token;
    player_id = player;
    room_id = room_id;
    preset_id = p;
    config_hash = config_hash_for p c;
    map_id = m.id;
    map_content_version = m.content_version;
    map_authority_version = m.authority_version;
    protocol = n;
    content = c;
  }

  unfoldable pub ticket_for_map :
      Link → String → String → String → String → String → ℕ → String → ℕ → Query Ticket
  ticket_for_map link player session_hash p c map_id n token now = do
    raise_if (not (valid_preset p c n)) version_mismatch
    m ← or_raise map_unavailable (map_definition_for map_id)
    let x = new_ticket token player room p c n m
    issue_ticket link x (lib.sha256_hex token) session_hash now
    pure x

  -- `Ticket` fills in the default map's constants without the catalog.
  unfoldable pub ticket : Link → String → String → String → String → ℕ → String → ℕ → Query Ticket
  ticket link player session_hash p c n token now = do
    raise_if (not (valid_preset p c n)) version_mismatch
    let x : Ticket = record {
      token = token;
      player_id = player;
      room_id = room;
      preset_id = p;
      config_hash = config_hash_for p c;
      map_id = default_map;
      map_content_version = default_map_content;
      map_authority_version = default_map_authority;
      protocol = n;
      content = c;
    }
    issue_ticket link x (lib.sha256_hex token) session_hash now
    pure x

  -- A ticket that cannot be issued gives the place back; whether that works is not looked at.
  abbrev pub or_release :
      Link → String → String → ℕ → Query (Ticket × RoomRecord) → Query (Ticket × RoomRecord)
  or_release link room_id player now m db =
      let (r, db') = m db in
      elim r [
        | ok a ↦ (ok a, db')
        | err e ↦ (err e, (release_reservation link room_id player now db').1)
      ]

  unfoldable pub allocate_for_map :
      Link
      → Link
      → Link
      → (String → Bool)
      → String
      → String
      → String
      → String
      → String
      → ℕ
      → String
      → ℕ
      → Query (Ticket × RoomRecord)
  allocate_for_map alloc issue release locked player session_hash p c map_id n token now = do
    raise_if (not (valid_preset p c n)) version_mismatch
    m ← or_raise map_unavailable (map_definition_for map_id)
    r ← allocate_room lib alloc locked player c n (config_hash_for p c) now
    let x = new_ticket token player r.id p c n m
    or_release release r.id player now
        (issue_ticket issue x (lib.sha256_hex token) session_hash now >> pure (x, r))

  unfoldable pub allocate :
      Link
      → Link
      → Link
      → (String → Bool)
      → String
      → String
      → String
      → String
      → ℕ
      → String
      → ℕ
      → Query (Ticket × RoomRecord)
  unfolding allocate_for_map
  allocate alloc issue release locked player session_hash p c n token now =
      allocate_for_map alloc issue release locked player session_hash p c default_map n token now

  abbrev pub preset_of : String → String
  preset_of c = if c == combat_content then combat_preset else preset

  unfoldable pub register : Link → RoomRecord → ℕ → Query RoomRecord
  register link r now = do
    raise_if
        (ltb r.capacity 1
          || ltb 8 r.capacity
          || not (r.protocol_version == proto)
          || (not (r.gameplay_content_hash == content)
              && not (r.gameplay_content_hash == combat_content))
          || not (
              r.resolved_config_hash
              == config_hash_for (preset_of r.gameplay_content_hash) r.gameplay_content_hash)
          || not (r.status == "ready"))
        invalid_capacity
    register_room link r now

  unfoldable pub redeem : Link → Ticket → ℕ → Query Ticket
  redeem link x now = do
    raise_if
        (x.room_id == ""
          || not (valid_preset x.preset_id x.content x.protocol)
          || not (x.config_hash == config_hash_for x.preset_id x.content))
        unauthorized
    redeem_ticket lib link x now

  -- What is required and what is paid come from the catalog, whatever the request says.
  unfoldable pub service_commit_quest : Link → Link → QuestCommit → ℕ → Query ProgressSnapshot
  service_commit_quest link read c now = do
    required ← or_raise rejected (quest_requirement c.quest_id c.objective_id)
    commit_quest lib link read (record c { required = required; reward = quest_reward c.quest_id })
        now
