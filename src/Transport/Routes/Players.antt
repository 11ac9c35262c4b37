-- ===== src/Transport/Routes/Players.antt =====
-- Backend/transport/http.go: the routes of the players' clients.
use g_server.Store.{no_rows}
use g_server.Common.{
  ℕ, Bool, not, ◌&&◌, ◌||◌, none, some, [], ◌∷◌, String, leb, ltb, ◌==◌, number_key, text_key,
  if◌then◌else◌, List,
}
use g_server.Transport.Routes.Progress.{status_ok}
use g_server.Transport.Message.{
  LoginRequest, Body, TicketRequest, db_error, object, Decoder, Response, failure, Context,
  Exchange, when_valid, answer, refuse, response, denied, authorized, maps,
}
use g_server.Domain.{default_map, Ticket, RoomRecord, text, number, Session}
use g_server.Libs.{Libs}
use g_server.Transport.Credential.{text_within, bearer}
use g_server.Store.{Error}
use g_server.Usecase.Service.{Service, valid_preset, login, allocate_for_map, ticket_for_map, auth}
use g_server.Store.Session.{revoke_session, ping}
use g_server.Usecase.Maps.{map_packages}

abbrev pub valid_login : LoginRequest → Bool
valid_login x = text_within x.username 64 && text_within x.password 256

abbrev pub login_body : String × String → Body
login_body (token, id) = object (("access_token", text token) ∷ ("player_id", text id) ∷ [])

abbrev pub valid_ticket : TicketRequest → Bool
valid_ticket x =
    text_within x.preset 32
    && (x.map_id == "" || text_within x.map_id 64)
    && text_within x.content 128
    && not (ltb x.proto 1)
    && leb x.proto 100

abbrev pub map_or_default : String → String
map_or_default id = if id == "" then default_map else id

-- The body of both answers with a ticket.
abbrev pub ticket_body : Ticket → String → String → ℕ → Body
ticket_body out room_id host port = object (
    ("ticket", text out.token)
    ∷ ("room_id", text room_id)
    ∷ ("host", text host)
    ∷ ("port", number port)
    ∷ ("preset_id", text out.preset_id)
    ∷ ("map_id", text out.map_id)
    ∷ ("map_content_version", text out.map_content_version)
    ∷ ("map_authority_version", text out.map_authority_version)
    ∷ ("resolved_config_hash", text out.config_hash)
    ∷ ("protocol_version", number out.protocol)
    ∷ ("gameplay_content_hash", text out.content)
    ∷ [])

abbrev pub allocation_body : Ticket × RoomRecord → Body
allocation_body (out, r) = ticket_body out r.id r.host r.port

unfoldable pub allocate_error : Error → Response
unfolding db_error
allocate_error no_rows = failure 409 "capacity unavailable"
allocate_error e = db_error e

module _ (lib : Libs) (decoder : Decoder) (service : Service) (cx : Context) (body : List ℕ) where
  unfoldable pub login_route : Exchange
  login_route = when_valid valid_login (decoder.login body) λ x.
      answer db_error (λ out. response 200 (login_body out))
        (login lib (cx.link 0) (cx.link 1) x.username x.password cx.token cx.now)

  -- The session of the request's bearer token, and what its owner may do.
  unfoldable pub with_session : String → (Session → Exchange) → Exchange
  with_session authorization next db = elim (bearer authorization) [
    | none ↦ refuse denied db
    | some token ↦ authorized next (auth lib (cx.link 0) token cx.now db)
  ]

  unfoldable pub allocate_route : Session → TicketRequest → Exchange
  allocate_route s x =
      answer allocate_error (λ out. response 200 (allocation_body out))
        (allocate_for_map lib (cx.link 1) (cx.link 2) (cx.link 3) cx.locked s.player_id s.token_hash
          x.preset x.content (map_or_default x.map_id) x.proto cx.token cx.now)

  unfoldable pub ticket_route : Session → TicketRequest → Exchange
  ticket_route s x =
      answer db_error (λ out. response 200 (ticket_body out out.room_id service.host service.port))
        (ticket_for_map lib (cx.link 1) s.player_id s.token_hash x.preset x.content
          (map_or_default x.map_id) x.proto cx.token cx.now)

  unfoldable pub logout_route : Session → Exchange
  logout_route s =
      answer db_error (λ out. response 200 status_ok)
        (revoke_session (cx.link 1) s.token_hash cx.now)

  unfoldable pub place_route : String → Session → Exchange
  place_route path s = when_valid valid_ticket (decoder.ticket body) λ x.
      if not (valid_preset x.preset x.content x.proto)
      then refuse (failure 409 "version mismatch")
      else if path == "/v1/rooms/allocate"
      then allocate_route s x
      else ticket_route s x

  unfoldable pub player_routes : String → String → Exchange
  player_routes path authorization =
      with_session authorization
        λ s. if path == "/v1/auth/logout" then logout_route s else place_route path s

  -- `keys` are those of the map catalog as `range` visits them.
  unfoldable pub maps_route : List String → String → String → Exchange
  maps_route keys method authorization =
      if not (method == "GET")
      then refuse (failure 405 "Method Not Allowed")
      else with_session authorization λ s. refuse (response 200 (maps (map_packages keys)))

  unfoldable pub health_route : String → String → Exchange
  health_route path method =
      if not (method == "GET")
      then refuse (failure 405 "Method Not Allowed")
      else if path == "/health/ready"
      then answer (λ e. failure 503 "not ready")
          (λ out. response 200 (object (("status", text "ready") ∷ []))) (ping (cx.link 0))
      else refuse (response 200 status_ok)
