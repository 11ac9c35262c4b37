-- ===== src/Tests/Tickets.antt =====
-- A request for a ticket, and its redemption.
use g_server.Tests.Http.{decoder, service, cx, later, logged_in}
use g_server.Common.{true, none, some, [], ◌≡◌, refl, arith, lookup, find, number_key, text_key}
use g_server.Domain.{
  preset, content, proto, Session, room, default_map, default_map_content, default_map_authority,
}
use g_server.Store.{SessionRow}
use g_server.Tests.Sample.{lib}
use g_server.Usecase.Service.{valid_preset, config_hash_for, ticket_for_map}
use g_server.Transport.Message.{Decoder, response, TicketRequest, RedeemRequest}
use g_server.Transport.Credential.{text_within}
use g_server.Transport.Routes.Players.{ticket_route, ticket_body}
use g_server.Usecase.Maps.{map_definition_for}
use g_server.Store.Session.{session_of}
use g_server.Transport.Routes.Rooms.{redeem_route, redeem_body, ticket_of_redeem}
use g_server.Store.Ticket.{issue_ticket, insert_ticket}
use g_server.Transport.Admission.{ticket_route-redeem_route}

-- A ticket for the default map, and the redemption that repeats the answer.
abbrev valley : TicketRequest
valley = record { preset = preset; map_id = ""; proto = proto; content = content }

abbrev repeated : RedeemRequest
repeated = record {
  ticket = "token-2";
  room = room;
  preset = preset;
  proto = proto;
  content = content;
  config = "json";
  map_id = default_map;
  map_content_version = default_map_content;
  map_authority_version = default_map_authority;
}

abbrev game_decoder : Decoder
game_decoder = record decoder { redeem = λ b. some repeated }

abbrev ann_session : Session
ann_session = record { player_id = "ann"; token_hash = "token-1" }

abbrev ann_row : SessionRow
ann_row = record { player_id = "ann"; token_hash = "token-1"; expires_at = 900; revoked_at = none }

ann_is_there : session_of "token-1" logged_in ≡ some ann_row
unfolding find
ann_is_there = refl

gives_ticket :
    (ticket_route lib game_decoder service cx [] ann_session valley logged_in).0
    ≡ response 200 (ticket_body (ticket_of_redeem repeated) room "127.0.0.1" 7000)
unfolding ticket_route ticket_for_map map_definition_for lookup issue_ticket insert_ticket find
    valid_preset config_hash_for
gives_ticket = refl

short_hash : text_within (config_hash_for lib preset content) 128 ≡ true
unfolding config_hash_for
short_hash = refl

ticket_route-redeem_route_example :
    (redeem_route lib game_decoder later []
      (ticket_route lib game_decoder service cx [] ann_session valley logged_in).1).0
    ≡ response 200 (redeem_body (record (ticket_of_redeem repeated) { player_id = "ann" }))
ticket_route-redeem_route_example =
    ticket_route-redeem_route lib game_decoder service cx later [] [] ann_session valley repeated
      ann_row logged_in refl refl refl refl short_hash ann_is_there refl refl (omega arith)
      gives_ticket refl
