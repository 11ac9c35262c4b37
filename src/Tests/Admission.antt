-- ===== src/Tests/Admission.antt =====
-- Tickets, rooms and the way from one to the other.
use g_server.Common.{
  refl, arith, find, none, ◌∷◌, count, false, [], ◌≡◌, ap, lookup, sym, update, some, ◌≢◌,
}
use g_server.Tests.Sample.{lib, fresh}
use g_server.Store.Room.History.{next, here, allocates, rooms_stay-IsTallied}
use g_server.Store.Room.Allocate.{Allocated, allocate_room-fits}
use g_server.Store.Ticket.Once.{here as same_tickets, redeemed_once}
use g_server.Usecase.Placement.{allocate_for_map_any_map}
use g_server.Domain.{
  RoomRecord, Ticket, proto, preset, forest_map, content, default_map, forest_map_content,
  default_map_content, forest_map_authority, default_map_authority, room,
}
use g_server.Store.{SessionRow, Db, ReservationRow, up, ok}
use g_server.Store.Room.{
  allocate_room, move_to, first_room, leave_room, enter_room, reserve, take_place,
}
use g_server.Store.Room.Tally.{IsTallied}
use g_server.Usecase.Service.{allocate_for_map, valid_preset, config_hash_for, ticket_for_map}
use g_server.Store.Ticket.{ticket_row, issue_ticket, insert_ticket, redeem_ticket}
use g_server.Usecase.Maps.{map_definition_for, MapDefinition}
use g_server.Store.Session.{session_of}

abbrev ann_session : SessionRow
ann_session = record {
  player_id = "ann";
  token_hash = "session";
  expires_at = 900000000;
  revoked_at = none;
}

-- The room that the game server of the default map registers.
abbrev valley : RoomRecord
valley = record {
  id = "valley";
  host = "host";
  port = 7000;
  protocol_version = proto;
  gameplay_content_hash = content;
  resolved_config_hash = "json";
  status = "ready";
  generation = 1;
  capacity = 2;
  used_players = 0;
  last_heartbeat = 0;
  map_id = default_map;
  map_content_version = default_map_content;
  map_authority_version = default_map_authority;
}

abbrev online : Db
online = record fresh { sessions = ann_session ∷ []; rooms = valley ∷ [] }

online-IsTallied : IsTallied online
unfolding find count
online-IsTallied = record {
  counted = λ id. ground arith;
  single = λ player. ground arith;
  keyed = λ room player. ground arith;
  rooms = λ id. ground arith;
}

abbrev ann_place : ReservationRow
ann_place = record { room_id = "valley"; player_id = "ann"; released_at = none; status = 1 }

abbrev placed : Db
placed = record online {
  rooms = record valley { used_players = 1 } ∷ [];
  reservations = ann_place ∷ [];
}

allocates_valley :
    allocate_room lib up (λ _. false) "ann" content proto "json" 5 online ≡ (ok valley, placed)
unfolding allocate_room move_to first_room leave_room enter_room reserve take_place find update
allocates_valley = refl

allocate_room-fits_example :
    (false ≡ false) × Allocated lib "ann" content proto "json" 5 valley online placed
unfolding find
allocate_room-fits_example =
    allocate_room-fits lib up (λ _. false) "ann" content proto "json" 5 valley online placed
      online-IsTallied allocates_valley

rooms_stay-IsTallied_example : IsTallied placed
rooms_stay-IsTallied_example =
    rooms_stay-IsTallied lib {db = online} {db' = placed}
      (next here (
        allocates up (λ _. false) "ann" content proto "json" 5
          (ap (λ x. x.1) (sym allocates_valley))))
      online-IsTallied

-- Two tickets for the two maps, out of the one room.
abbrev valley_ticket : Ticket
valley_ticket = record {
  token = "token";
  player_id = "ann";
  room_id = "valley";
  preset_id = preset;
  config_hash = "json";
  map_id = default_map;
  map_content_version = default_map_content;
  map_authority_version = default_map_authority;
  protocol = proto;
  content = content;
}

abbrev forest_ticket : Ticket
forest_ticket = record valley_ticket {
  map_id = forest_map;
  map_content_version = forest_map_content;
  map_authority_version = forest_map_authority;
}

abbrev issued : Ticket → Db
issued x = record placed { tickets = ticket_row x "ann" "token" "session" 5 ∷ [] }

places_valley :
    allocate_for_map lib up up up
      (λ _. false)
      "ann"
      "session"
      preset
      content
      default_map
      proto
      "token"
      5
      online
    ≡ (ok (valley_ticket, valley), issued valley_ticket)
unfolding allocate_for_map valid_preset map_definition_for lookup config_hash_for allocate_room
    move_to first_room leave_room enter_room reserve take_place issue_ticket insert_ticket find
    update
places_valley = refl

places_forest :
    allocate_for_map lib up up up
      (λ _. false)
      "ann"
      "session"
      preset
      content
      forest_map
      proto
      "token"
      5
      online
    ≡ (ok (forest_ticket, valley), issued forest_ticket)
unfolding allocate_for_map valid_preset map_definition_for lookup config_hash_for allocate_room
    move_to first_room leave_room enter_room reserve take_place issue_ticket insert_ticket find
    update
places_forest = refl

allocate_for_map_any_map_example :
    valley ≡ valley
    × (m : MapDefinition) × map_definition_for default_map ≡ some m
    × default_map ≡ m.id
    × (k : MapDefinition) × map_definition_for forest_map ≡ some k
    × forest_map ≡ k.id
allocate_for_map_any_map_example =
    allocate_for_map_any_map lib up up up (λ _. false) "ann" "session" preset content default_map
      forest_map proto "token" 5 online (issued valley_ticket) (issued forest_ticket)
      {x = valley_ticket} {y = forest_ticket} {r = valley} {s = valley} places_valley places_forest

-- The ticket cannot be written, and the place is given back.
abbrev given_back : Db
given_back = record online { reservations = record ann_place { released_at = some 5 } ∷ [] }

abbrev spent : Db
spent = record (issued valley_ticket) {
  tickets =
      record (ticket_row valley_ticket "ann" "token" "session" 5) { redeemed_at = some 6 } ∷ [];
}

redeems_valley :
    redeem_ticket lib up valley_ticket 6 (issued valley_ticket) ≡ (ok valley_ticket, spent)
unfolding redeem_ticket find update
redeems_valley = refl

redeemed_once_example : (redeem_ticket lib up valley_ticket 7 spent).0 ≢ ok valley_ticket
redeemed_once_example =
    redeemed_once lib valley_ticket valley_ticket 6 (issued valley_ticket) spent spent valley_ticket
      valley_ticket 7 redeems_valley same_tickets refl

-- The ticket of TicketForMap, which is for the room of that name.
abbrev forest_entry : Ticket
forest_entry = record forest_ticket { room_id = room }

abbrev ticketed : Db
ticketed = record online { tickets = ticket_row forest_entry "ann" "token" "session" 5 ∷ [] }

issues_forest :
    ticket_for_map lib up "ann" "session" preset content forest_map proto "token" 5 online
    ≡ (ok forest_entry, ticketed)
unfolding ticket_for_map valid_preset map_definition_for lookup config_hash_for issue_ticket
    insert_ticket find
issues_forest = refl

ann_found : session_of "session" online ≡ some ann_session
unfolding find
ann_found = refl
