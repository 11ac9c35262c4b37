-- ===== src/Usecase/Admission.antt =====
-- Backend/usecase/service.go: from the ticket that TicketForMap issues to its redemption by the game
-- server.
use g_server.Common.{
  ℕ, ◌+◌, ◌<◌, String, ◌≡◌, ap, inl, inr, true, false, ◌&&◌, some, [], ◌∷◌, ◌++◌, arith, ◌==◌,
  number_key, text_key, text_iff, text_refl, Option-cases, find, find-append_new, find_holds,
}
use g_server.Domain.{Ticket, room}
use g_server.Store.{Db, ok, up, SessionRow, TicketRow, seconds}
use g_server.Store.Session.{is_session, is_open, session_of}
use g_server.Store.Ticket.{
  ticket_of, ticket_row, insert_ticket, issue_ticket, is_ticket, is_for, redeem_ticket,
}
use g_server.Libs.{Libs}
use g_server.Usecase.Service.{ticket_for_map, redeem, valid_preset, new_ticket, config_hash_for}
use g_server.Usecase.Maps.{
  MapDefinition, map_definition_for, valid_map, map_definition_for-valid_map,
}

insert_ticket-eq :
    (r : TicketRow) (db db' : Db)
    → insert_ticket r db ≡ (ok tt, db')
    → (db' ≡ record db { tickets = db.tickets ++ r ∷ [] }) × (ticket_of r.token_hash db' ≡ some r)
unfolding insert_ticket
insert_ticket-eq r db db' e = elim (Option-cases (ticket_of r.token_hash db)) [
  | inr (t, known) ↦ absurd (ground arith)
  | inl new ↦
      let stored =
        find-append_new (is_ticket r.token_hash) db.tickets r new (text_refl r.token_hash) in
      (ground arith, ground (arith, stored))
]

-- What a successful issue has stored.
issue_ticket-eq :
    (x : Ticket) (ticket_hash session_hash : String) (now : ℕ) (db db' : Db)
    → issue_ticket up x ticket_hash session_hash now db ≡ (ok tt, db')
    → (db'.sessions ≡ db.sessions)
      × (ticket_of ticket_hash db' ≡ some (ticket_row x x.player_id ticket_hash session_hash now))
unfolding issue_ticket
issue_ticket-eq x ticket_hash session_hash now db db' e =
    elim (Option-cases (
      find
        (λ (r : SessionRow).
          is_session session_hash r && r.player_id == x.player_id && is_open now r)
        db.sessions)) [
          | inl absent ↦ absurd (ground arith)
          | inr (s, found) ↦
              let (state, stored) =
                insert_ticket-eq (ticket_row x s.player_id ticket_hash session_hash now) db db'
                  (ground arith) in
              let owner =
                find_holds
                  (λ (r : SessionRow).
                    is_session session_hash r && r.player_id == x.player_id && is_open now r)
                  db.sessions found in
              (
                ground (arith, state),
                ground (arith, stored, owner, text_iff s.player_id x.player_id),
              )
        ]

-- A ticket fits the request that repeats its fields, whoever is named as the player.
is_for-ticket_row :
    (x : Ticket) (who ticket_hash session_hash : String) (now : ℕ)
    → is_for (record x { player_id = who }) (ticket_row x x.player_id ticket_hash session_hash now)
      ≡ true
is_for-ticket_row x who ticket_hash session_hash now = ground (
  arith,
  text_refl x.room_id,
  text_refl x.content,
  text_refl x.config_hash,
  text_refl x.preset_id,
  text_refl x.map_id,
  text_refl x.map_content_version,
  text_refl x.map_authority_version,
)

module _ (lib : Libs) where
  redeem_ticket-ok :
      (x : Ticket) (who session_hash : String) (now later : ℕ) (db : Db) (s : SessionRow)
      → ticket_of (lib.sha256_hex x.token) db
        ≡ some (ticket_row x x.player_id (lib.sha256_hex x.token) session_hash now)
      → session_of session_hash db ≡ some s
      → s.player_id ≡ x.player_id
      → is_open later s ≡ true
      → later < now + seconds 60
      → (redeem_ticket lib up (record x { player_id = who }) later db).0 ≡ ok x
  unfolding redeem_ticket
  redeem_ticket-ok x who session_hash now later db s issued found owner valid in_time = ground (
    arith,
    is_for-ticket_row x who (lib.sha256_hex x.token) session_hash now,
    text_iff s.player_id x.player_id,
  )

  pub ticket_for_map-eq :
      (player session_hash p c map_id : String) (n : ℕ) (token : String) (now : ℕ) (db db' : Db)
      {x : Ticket}
      → ticket_for_map lib up player session_hash p c map_id n token now db ≡ (ok x, db')
      → (valid_preset p c n ≡ true)
        × (m : MapDefinition) × (map_definition_for map_id ≡ some m)
        × (x ≡ new_ticket lib token player room p c n m)
        × (issue_ticket up x (lib.sha256_hex token) session_hash now db ≡ (ok tt, db'))
  unfolding ticket_for_map
  ticket_for_map-eq player session_hash p c map_id n token now db db' {x} e =
      elim (Option-cases (map_definition_for map_id)) [
        | inl absent ↦ absurd (ground arith)
        | inr (m, found) ↦
            let same : x ≡ new_ticket lib token player room p c n m = ground arith in
            (ground arith, m, found, same, rw same (ground arith))
      ]

  -- A ticket that is issued for a map is for that map as the catalog has it. A game server that
  -- repeats its fields redeems it within 60 seconds, as long as the session is open, and is told
  -- whose it is.
  pub ticket_for_map-redeem :
      (player session_hash p c map_id who : String) (n : ℕ) (token : String) (now later : ℕ)
      (db db' : Db) {x : Ticket} {s : SessionRow}
      → ticket_for_map lib up player session_hash p c map_id n token now db ≡ (ok x, db')
      → session_of session_hash db ≡ some s
      → s.player_id ≡ player
      → is_open later s ≡ true
      → later < now + seconds 60
      → ((redeem lib up (record x { player_id = who }) later db').0 ≡ ok x)
        × (valid_map x.map_id x.map_content_version x.map_authority_version ≡ true)
        × (x.player_id ≡ player)
  unfolding redeem
  ticket_for_map-redeem player session_hash p c map_id who n token now later db db' {x} {s} e found
        owner valid in_time =
      let (preset_fits, m, known, same, issued) =
        ticket_for_map-eq player session_hash p c map_id n token now db db' {x = x} e in
      let (sessions, stored) =
        issue_ticket-eq x (lib.sha256_hex token) session_hash now db db' issued in
      let admitted =
        redeem_ticket-ok x who session_hash now later db' s (ground (arith, same, stored))
          (ground (arith, sessions)) (ground (arith, same)) valid in_time in
      let placed : (x.room_id == "") ≡ false = ap (λ (t : Ticket). t.room_id == "") same in
      (
        ground (arith, admitted, same, placed, preset_fits, text_refl (config_hash_for lib p c)),
        ground (arith, same, map_definition_for-valid_map map_id known),
        ground (arith, same),
      )
