-- ===== src/Transport/Status/Players.antt =====
-- The statuses of the routes of rooms and players.
use g_server.Common.{
  refl, true, ◌≡◌, ◌==◌, text_key, String, not, List, ℕ, Option-cases, inl, arith, inr,
}
use g_server.Transport.Status.{
  Replies, call-Replies, if-Replies, refuse-Replies, when_valid-Replies, answer-Replies, is_reply,
  db_error-is_reply, allocate_error-is_reply, Libs, Decoder, Context, Result, status_ok, Db, ok,
  err,
}
use g_server.Usecase.Service.{Service, valid_preset, redeem, register, login, auth}
use g_server.Transport.Routes.Rooms.{
  redeem_route, register_route, room_route, room_routes, heartbeat_answer, valid_redeem, valid_room,
  redeem_body, ticket_of_redeem, valid_heartbeat,
}
use g_server.Transport.Message.{
  RoomRequest, db_error, Exchange, TicketRequest, response, Body, failure, authorized,
}
use g_server.Transport.Routes.Players.{
  login_route, with_session, allocate_route, ticket_route, logout_route, place_route, player_routes,
  valid_ticket, valid_login, allocate_error, login_body, allocation_body, ticket_body,
}
use g_server.Domain.{Session}
use g_server.Transport.Credential.{bearer, text_within}
use g_server.Store.Room.{heartbeat_room, release_reservation}

module _ (lib : Libs) (decoder : Decoder) (service : Service) (cx : Context) (body : List ℕ) where
  pub redeem_route-Replies : Replies (redeem_route lib decoder cx body)
  unfolding redeem_route
  redeem_route-Replies =
      call-Replies db_error valid_redeem (decoder.redeem body) redeem_body
        (λ x. redeem lib (cx.link 0) (ticket_of_redeem x) cx.now) db_error-is_reply

  register_route-Replies : Replies (register_route lib decoder cx body)
  unfolding register_route
  register_route-Replies =
      call-Replies db_error valid_room (decoder.register body) Body.room
        (λ x. register lib (cx.link 0) x cx.now) db_error-is_reply

  heartbeat_answer-Replies : (x : RoomRequest) → Replies (heartbeat_answer lib decoder cx body x)
  heartbeat_answer-Replies x =
      if-Replies (valid_heartbeat x) _ _
        (answer-Replies db_error (λ _. response 200 status_ok)
          (heartbeat_room (cx.link 0) x.room_id x.generation x.capacity x.used_players x.status
            cx.now)
          db_error-is_reply (λ _. refl))
        (refuse-Replies (failure 422 "invalid heartbeat") refl)

  room_route-Replies : (path : String) → Replies (room_route lib decoder cx body path)
  unfolding room_route
  room_route-Replies path =
      when_valid-Replies (λ (x : RoomRequest). text_within x.room_id 128) (decoder.room body) _
        (λ x.
          if-Replies (path == "/v1/internal/rooms/heartbeat")
            (heartbeat_answer lib decoder cx body x) _ (heartbeat_answer-Replies x)
            (answer-Replies db_error (λ _. response 200 status_ok)
              (release_reservation (cx.link 0) x.room_id x.player_id cx.now) db_error-is_reply
              (λ _. refl)))

  pub room_routes-Replies : (path : String) → Replies (room_routes lib decoder cx body path)
  unfolding room_routes
  room_routes-Replies path = if-Replies _ _ _ register_route-Replies (room_route-Replies path)

  pub login_route-Replies : Replies (login_route lib decoder service cx body)
  unfolding login_route
  login_route-Replies =
      call-Replies db_error valid_login (decoder.login body) login_body
        (λ x. login lib (cx.link 0) (cx.link 1) x.username x.password cx.token cx.now)
        db_error-is_reply

  authorized-is_reply :
      (next : Session → Exchange) (r : Result Session × Db)
      → ((s : Session) → Replies (next s))
      → is_reply (authorized next r).0.status ≡ true
  unfolding Replies
  authorized-is_reply next (ok s, db) h = h s db
  authorized-is_reply next (err e, db) h = db_error-is_reply e

  pub with_session-Replies :
      (authorization : String) (next : Session → Exchange)
      → ((s : Session) → Replies (next s))
      → Replies (with_session lib decoder service cx body authorization next)
  unfolding with_session Replies
  with_session-Replies authorization next h db = elim (Option-cases (bearer authorization)) [
    | inl absent ↦ ground arith
    | inr (token, found) ↦
        ground (arith, authorized-is_reply next (auth lib (cx.link 0) token cx.now db) h)
  ]

  allocate_route-Replies :
      (s : Session) (x : TicketRequest) → Replies (allocate_route lib decoder service cx body s x)
  unfolding allocate_route
  allocate_route-Replies s x =
      answer-Replies allocate_error (λ out. response 200 (allocation_body out)) _
        allocate_error-is_reply (λ _. refl)

  ticket_route-Replies :
      (s : Session) (x : TicketRequest) → Replies (ticket_route lib decoder service cx body s x)
  unfolding ticket_route
  ticket_route-Replies s x =
      answer-Replies db_error
        (λ out. response 200 (ticket_body out out.room_id service.host service.port)) _
        db_error-is_reply (λ _. refl)

  logout_route-Replies : (s : Session) → Replies (logout_route lib decoder service cx body s)
  unfolding logout_route
  logout_route-Replies s =
      answer-Replies db_error (λ _. response 200 status_ok) _ db_error-is_reply (λ _. refl)

  place_route-Replies :
      (path : String) (s : Session) → Replies (place_route lib decoder service cx body path s)
  unfolding place_route
  place_route-Replies path s = when_valid-Replies valid_ticket (decoder.ticket body) _ (λ x.
      if-Replies (not (valid_preset x.preset x.content x.proto)) _ _
        (refuse-Replies (failure 409 "version mismatch") refl)
        (if-Replies (path == "/v1/rooms/allocate") (allocate_route lib decoder service cx body s x)
          (ticket_route lib decoder service cx body s x) (allocate_route-Replies s x)
          (ticket_route-Replies s x)))

  pub player_routes-Replies :
      (path authorization : String)
      → Replies (player_routes lib decoder service cx body path authorization)
  unfolding player_routes
  player_routes-Replies path authorization = with_session-Replies authorization _ (λ s.
      if-Replies (path == "/v1/auth/logout") (logout_route lib decoder service cx body s)
        (place_route lib decoder service cx body path s) (logout_route-Replies s)
        (place_route-Replies path s))
