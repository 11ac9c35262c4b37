-- ===== src/Transport/Admission.antt =====
-- Backend/transport/http.go: from the answer with a ticket to its redemption.
use g_server.Common.{
  ℕ, String, true, false, Option, none, some, List, ◌≡◌, refl, sym, ap, ◌∙◌, arith, ◌==◌, text_key,
  number_key, lookup, ◌<◌, ◌+◌, subst, Bool, ◌&&◌, not, ltb, leb,
}
use g_server.Transport.Message.{
  Response, send, object, response, Decoder, Context, TicketRequest, db_error, RedeemRequest,
}
use g_server.Transport.Routes.Players.{ticket_route, ticket_body, map_or_default, valid_ticket}
use g_server.Store.{Error, Result, Db, ok, err, up, SessionRow, seconds}
use g_server.Domain.{JsonValue, Ticket, text, number, Session, room}
use g_server.Libs.{Libs}
use g_server.Usecase.Service.{Service, ticket_for_map, redeem, config_hash_for, new_ticket}
use g_server.Transport.Sessions.{db_error-status}
use g_server.Transport.Routes.Rooms.{redeem_route, valid_redeem, ticket_of_redeem, redeem_body}
use g_server.Transport.Credential.{text_within}
use g_server.Usecase.Admission.{ticket_for_map-eq, ticket_for_map-redeem}
use g_server.Store.Session.{session_of, is_open}

-- A call whose answer is a 200 has gone well.
pub send-ok :
    {A : Type 0} (fail : Error → Response) (done : A → Response) (r : Result A × Db)
    → ((e : Error) → ((fail e).status == 200) ≡ false)
    → ((send fail done r).0.status == 200) ≡ true
    → (a : A) × (r ≡ (ok a, (send fail done r).1)) × ((send fail done r).0 ≡ done a)
send-ok fail done (ok a, db) h e = (a, refl, refl)
send-ok fail done (err x, db) h e = absurd (ground (arith, h x, e))

send-done :
    {A : Type 0} (fail : Error → Response) (done : A → Response) (r : Result A × Db) (a : A)
    → r.0 ≡ ok a
    → (send fail done r).0 ≡ done a
send-done fail done (ok b, db) a e = ground (arith, e)
send-done fail done (err x, db) a e = absurd (ground (arith, e))

abbrev text_of : Option JsonValue → String
text_of (some (text s)) = s
text_of _ = ""

abbrev number_of : Option JsonValue → ℕ
number_of (some (number n)) = n
number_of _ = 0

-- A member of a response's object.
abbrev member : String → Response → Option JsonValue
member name r = elim r.body [ object fields ↦ lookup name fields | _ ↦ none ]

-- The answer with a ticket tells all of the ticket but its owner.
told :
    (a b : Ticket) (host : String) (port : ℕ)
    → response 200 (ticket_body a a.room_id host port)
      ≡ response 200 (ticket_body b b.room_id host port)
    → record a { player_id = "" } ≡ record b { player_id = "" }
unfolding lookup
told a b host port e =
    let token : a.token ≡ b.token = ap (λ r. text_of (member "ticket" r)) e in
    let room_id : a.room_id ≡ b.room_id = ap (λ r. text_of (member "room_id" r)) e in
    let preset_id : a.preset_id ≡ b.preset_id = ap (λ r. text_of (member "preset_id" r)) e in
    let map_id : a.map_id ≡ b.map_id = ap (λ r. text_of (member "map_id" r)) e in
    let map_content : a.map_content_version ≡ b.map_content_version =
      ap (λ r. text_of (member "map_content_version" r)) e in
    let authority : a.map_authority_version ≡ b.map_authority_version =
      ap (λ r. text_of (member "map_authority_version" r)) e in
    let config : a.config_hash ≡ b.config_hash =
      ap (λ r. text_of (member "resolved_config_hash" r)) e in
    let protocol : a.protocol ≡ b.protocol = ap (λ r. number_of (member "protocol_version" r)) e in
    let content : a.content ≡ b.content = ap (λ r. text_of (member "gameplay_content_hash" r)) e in
    ground
      (arith, token, room_id, preset_id, map_id, map_content, authority, config, protocol, content)

-- The limits of `valid_redeem`, on the ticket.
abbrev fits : Ticket → Bool
fits t =
    text_within t.token 256
    && text_within t.room_id 128
    && text_within t.preset_id 32
    && text_within t.content 128
    && text_within t.config_hash 128
    && not (ltb t.protocol 1)
    && leb t.protocol 100

module _ (lib : Libs) (decoder : Decoder) (service : Service) (cx later : Context)
    (body body' : List ℕ) where
  -- The ticket behind the answer.
  ticket_route-issued :
      (s : Session) (x : TicketRequest) (db : Db)
      → cx.link 1 ≡ up
      → ((ticket_route lib decoder service cx body s x db).0.status == 200) ≡ true
      → (out : Ticket) × (ticket_for_map lib up s.player_id s.token_hash x.preset x.content
            (map_or_default x.map_id)
            x.proto
            cx.token
            cx.now
            db
          ≡ (ok out, (ticket_route lib decoder service cx body s x db).1))
        × ((ticket_route lib decoder service cx body s x db).0
            ≡ response 200 (ticket_body out out.room_id service.host service.port))
  unfolding ticket_route
  ticket_route-issued s x db linked good =
      let (out, issued, shown) =
        send-ok db_error
          (λ out. response 200 (ticket_body out out.room_id service.host service.port))
          (ticket_for_map lib (cx.link 1) s.player_id s.token_hash x.preset x.content
            (map_or_default x.map_id) x.proto cx.token cx.now db)
          db_error-status good in
      (
        out,
        ap
              (λ l.
                ticket_for_map lib l s.player_id s.token_hash x.preset x.content
                  (map_or_default x.map_id) x.proto cx.token cx.now db)
              (sym linked)
            ∙ issued,
        shown,
      )

  redeem_route-answer :
      (x' : RedeemRequest) (db : Db) (out : Ticket)
      → later.link 0 ≡ up
      → decoder.redeem body' ≡ some x'
      → valid_redeem x' ≡ true
      → (redeem lib up (ticket_of_redeem x') later.now db).0 ≡ ok out
      → (redeem_route lib decoder later body' db).0 ≡ response 200 (redeem_body out)
  unfolding redeem_route
  redeem_route-answer x' db out linked decoded valid e = ground (
    arith,
    decoded,
    valid,
    send-done db_error (λ out. response 200 (redeem_body out))
        (redeem lib (later.link 0) (ticket_of_redeem x') later.now db) out
        (ap (λ l. (redeem lib l (ticket_of_redeem x') later.now db).0) linked ∙ e),
  )

  repeated_is_valid :
      (s : Session) (x : TicketRequest) (x' : RedeemRequest) (db db' : Db) (out : Ticket)
      → ticket_for_map lib up s.player_id s.token_hash x.preset x.content
          (map_or_default x.map_id)
          x.proto
          cx.token
          cx.now
          db
        ≡ (ok out, db')
      → record out { player_id = "" } ≡ ticket_of_redeem x'
      → valid_ticket x ≡ true
      → text_within cx.token 256 ≡ true
      → text_within (config_hash_for lib x.preset x.content) 128 ≡ true
      → valid_redeem x' ≡ true
  repeated_is_valid s x x' db db' out issued same valid token config =
      let (_, m, _, made, _) =
        ticket_for_map-eq lib s.player_id s.token_hash x.preset x.content (map_or_default x.map_id)
          x.proto cx.token cx.now db db' {x = out} issued in
      let asked : fits
            (record (new_ticket lib cx.token s.player_id room x.preset x.content x.proto m) {
              player_id = "";
            })
          ≡ true =
        ground (arith, token, config, valid) in
      subst (λ (t : Ticket). fits t ≡ true)
        (ap (λ (t : Ticket). record t { player_id = "" }) (sym made) ∙ same) asked

  -- A client's valid request is answered with a ticket. A game server that sends the members of
  -- that answer within 60 seconds, as long as the session is open, is answered with them and the
  -- client's player: where the drawn token and the hash have at most 256 and 128 characters, and the
  -- connections work.
  pub ticket_route-redeem_route :
      (s : Session) (x : TicketRequest) (x' : RedeemRequest) (row : SessionRow) (db : Db)
      → cx.link 1 ≡ up
      → later.link 0 ≡ up
      → valid_ticket x ≡ true
      → text_within cx.token 256 ≡ true
      → text_within (config_hash_for lib x.preset x.content) 128 ≡ true
      → session_of s.token_hash db ≡ some row
      → row.player_id ≡ s.player_id
      → is_open later.now row ≡ true
      → later.now < cx.now + seconds 60
      → (ticket_route lib decoder service cx body s x db).0
        ≡ response 200 (ticket_body (ticket_of_redeem x') x'.room service.host service.port)
      → decoder.redeem body' ≡ some x'
      → (redeem_route lib decoder later body' (ticket_route lib decoder service cx body s x db).1).0
        ≡ response 200 (redeem_body (record (ticket_of_redeem x') { player_id = s.player_id }))
  ticket_route-redeem_route s x x' row db linked linked' valid token config found owner still_open
        in_time answer decoded =
      let db' = (ticket_route lib decoder service cx body s x db).1 in
      let (out, issued, shown) =
        ticket_route-issued s x db linked (ap (λ (r : Response). r.status == 200) answer) in
      let same = told out (ticket_of_redeem x') service.host service.port (sym shown ∙ answer) in
      let (admitted, known, mine) =
        ticket_for_map-redeem lib s.player_id s.token_hash x.preset x.content
          (map_or_default x.map_id) "" x.proto cx.token cx.now later.now db db' {x = out} {s = row}
          issued found owner still_open in_time in
      let redeemed =
        subst (λ (t : Ticket). (redeem lib up t later.now db').0 ≡ ok out) same admitted in
      let whole : out ≡ record (ticket_of_redeem x') { player_id = s.player_id } =
        ground (arith, mine, same) in
      redeem_route-answer x' db' out linked' decoded
        (repeated_is_valid s x x' db db' out issued same valid token config) redeemed
      ∙ ap (λ (t : Ticket). response 200 (redeem_body t)) whole
