-- ===== src/Transport/Routes/Rooms.antt =====
-- Backend/transport/http.go: the redemption of tickets and the routes below /v1/internal/rooms/.
use g_server.Common.{
  ℕ, Bool, not, ◌&&◌, ◌||◌, [], ◌∷◌, String, leb, ltb, ◌==◌, number_key, text_key, if◌then◌else◌,
  List,
}
use g_server.Transport.Routes.Progress.{status_ok}
use g_server.Transport.Message.{
  RedeemRequest, RoomRequest, Body, Decoder, object, Context, Exchange, when_valid, answer,
  db_error, response, refuse, failure,
}
use g_server.Domain.{Ticket, RoomRecord, text}
use g_server.Libs.{Libs}
use g_server.Transport.Credential.{text_within}
use g_server.Store.Room.{exceeds, heartbeat_room, release_reservation}
use g_server.Usecase.Service.{redeem, register}

abbrev pub valid_redeem : RedeemRequest → Bool
valid_redeem x =
    text_within x.ticket 256
    && text_within x.room 128
    && text_within x.preset 32
    && text_within x.content 128
    && text_within x.config 128
    && not (ltb x.proto 1)
    && leb x.proto 100

abbrev pub ticket_of_redeem : RedeemRequest → Ticket
ticket_of_redeem x = record {
  token = x.ticket;
  player_id = "";
  room_id = x.room;
  preset_id = x.preset;
  config_hash = x.config;
  map_id = x.map_id;
  map_content_version = x.map_content_version;
  map_authority_version = x.map_authority_version;
  protocol = x.proto;
  content = x.content;
}

abbrev pub redeem_body : Ticket → Body
redeem_body out = object (
    ("player_id", text out.player_id)
    ∷ ("room_id", text out.room_id)
    ∷ ("preset_id", text out.preset_id)
    ∷ ("resolved_config_hash", text out.config_hash)
    ∷ ("map_id", text out.map_id)
    ∷ ("map_content_version", text out.map_content_version)
    ∷ ("map_authority_version", text out.map_authority_version)
    ∷ [])

abbrev pub valid_room : RoomRecord → Bool
valid_room x =
    text_within x.id 128
    && text_within x.host 256
    && not (ltb x.port 1)
    && leb x.port 65535
    && not (ltb x.generation 1)
    && not (ltb x.capacity 1)
    && leb x.capacity 8

abbrev pub valid_heartbeat : RoomRequest → Bool
valid_heartbeat x =
    not (ltb x.generation 1)
    && not (ltb x.capacity 1)
    && leb x.capacity 8
    && not (exceeds x.capacity x.used_players)
    && (x.status == "ready" || x.status == "draining")

module _ (lib : Libs) (decoder : Decoder) (cx : Context) (body : List ℕ) where
  unfoldable pub redeem_route : Exchange
  redeem_route = when_valid valid_redeem (decoder.redeem body) λ x.
      answer db_error (λ out. response 200 (redeem_body out))
        (redeem lib (cx.link 0) (ticket_of_redeem x) cx.now)

  unfoldable pub register_route : Exchange
  register_route =
      when_valid valid_room (decoder.register body) λ x.
        answer db_error (λ out. response 200 (Body.room out)) (register lib (cx.link 0) x cx.now)

  abbrev pub heartbeat_answer : RoomRequest → Exchange
  heartbeat_answer x =
      if valid_heartbeat x
      then answer db_error (λ out. response 200 status_ok)
          (heartbeat_room (cx.link 0) x.room_id x.generation x.capacity x.used_players x.status
            cx.now)
      else refuse (failure 422 "invalid heartbeat")

  unfoldable pub room_route : String → Exchange
  room_route path =
      when_valid (λ x. text_within x.room_id 128) (decoder.room body)
        λ x.
          if path == "/v1/internal/rooms/heartbeat"
          then heartbeat_answer x
          else answer db_error (λ out. response 200 status_ok)
              (release_reservation (cx.link 0) x.room_id x.player_id cx.now)

  unfoldable pub room_routes : String → Exchange
  room_routes path =
      if path == "/v1/internal/rooms/register" then register_route else room_route path
