-- ===== src/Transport/Errors.antt =====
-- Backend/transport/http.go with Backend/usecase/service.go: the errors of the service as responses.
use g_server.Common.{ℕ, String, true, none, some, List, ◌≡◌, refl, arith, text_key, ap}
use g_server.Transport.Message.{TicketRequest, failure, Decoder, Context, db_error, send, response}
use g_server.Transport.Routes.Players.{
  place_route, allocate_route, ticket_route, valid_ticket, map_or_default, allocate_error,
  ticket_body, allocation_body,
}
use g_server.Usecase.Maps.{map_definition_for}
use g_server.Usecase.Service.{Service, valid_preset, ticket_for_map, allocate_for_map}
use g_server.Libs.{Libs}
use g_server.Domain.{Session}
use g_server.Store.{Db, err, map_unavailable}

module _ (lib : Libs) (decoder : Decoder) (service : Service) (cx : Context) (body : List ℕ)
    (s : Session) (x : TicketRequest) (db : Db) where
  ticket_for_map-unknown :
      valid_preset x.preset x.content x.proto ≡ true
      → map_definition_for (map_or_default x.map_id) ≡ none
      → ticket_for_map lib
          (cx.link 1)
          s.player_id
          s.token_hash
          x.preset
          x.content
          (map_or_default x.map_id)
          x.proto
          cx.token
          cx.now
          db
        ≡ (err map_unavailable, db)
  unfolding ticket_for_map
  ticket_for_map-unknown preset unknown = rw preset (rw unknown refl)

  allocate_for_map-unknown :
      valid_preset x.preset x.content x.proto ≡ true
      → map_definition_for (map_or_default x.map_id) ≡ none
      → allocate_for_map lib
          (cx.link 1)
          (cx.link 2)
          (cx.link 3)
          cx.locked
          s.player_id
          s.token_hash
          x.preset
          x.content
          (map_or_default x.map_id)
          x.proto
          cx.token
          cx.now
          db
        ≡ (err map_unavailable, db)
  unfolding allocate_for_map
  allocate_for_map-unknown preset unknown = rw preset (rw unknown refl)

  ticket_route-unknown :
      valid_preset x.preset x.content x.proto ≡ true
      → map_definition_for (map_or_default x.map_id) ≡ none
      → ticket_route lib decoder service cx body s x db ≡ (failure 503 "database unavailable", db)
  unfolding ticket_route db_error
  ticket_route-unknown preset unknown =
      ap
        (send db_error
          (λ out. response 200 (ticket_body out out.room_id service.host service.port)))
        (ticket_for_map-unknown preset unknown)

  allocate_route-unknown :
      valid_preset x.preset x.content x.proto ≡ true
      → map_definition_for (map_or_default x.map_id) ≡ none
      → allocate_route lib decoder service cx body s x db ≡ (failure 503 "database unavailable", db)
  unfolding allocate_route allocate_error db_error
  allocate_route-unknown preset unknown =
      ap (send allocate_error (λ out. response 200 (allocation_body out)))
        (allocate_for_map-unknown preset unknown)

  -- A valid request for a ticket or a place, whose session is found, that names a map the catalog
  -- does not have is answered with 503 and the words "database unavailable"; nothing is written.
  pub unknown_map :
      (path : String)
      → decoder.ticket body ≡ some x
      → valid_ticket x ≡ true
      → valid_preset x.preset x.content x.proto ≡ true
      → map_definition_for (map_or_default x.map_id) ≡ none
      → place_route lib decoder service cx body path s db ≡ (failure 503 "database unavailable", db)
  unfolding place_route
  unknown_map path decoded valid preset unknown = ground (
    arith,
    decoded,
    valid,
    preset,
    ticket_route-unknown preset unknown,
    allocate_route-unknown preset unknown,
  )
