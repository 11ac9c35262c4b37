-- ===== src/Store/Ticket/Redeem.antt =====
-- A ticket is redeemed for what it was issued for, and once.
use g_server.Common.{
  ℕ, ◌<◌, ◌≡◌, inl, inr, true, none, some, arith, number_key, text_key, text_iff, Option-cases,
}
use g_server.Domain.{Ticket}
use g_server.Libs.{Libs}
use g_server.Store.{Db, ok, up, TicketRow, SessionRow}
use g_server.Store.Session.{is_open, session_of}
use g_server.Store.Ticket.{ticket_of, is_for, is_redeemable, redeemed, redeem_ticket}

module _ (lib : Libs) where
  -- The ticket that a redemption has found, and the session that it hangs on.
  pub record Admission (x : Ticket) (now : ℕ) (db : Db) (out : Ticket) : Type 0 where
    pub ticket : TicketRow
    pub session : SessionRow
    pub issued : ticket_of (lib.sha256_hex x.token) db ≡ some ticket
    pub unused : ticket.redeemed_at ≡ none
    pub in_time : now < ticket.expires_at
    pub meant : is_for x ticket ≡ true
    pub session_found : session_of ticket.session_hash db ≡ some session
    pub session_owner : session.player_id ≡ ticket.player_id
    pub session_open : is_open now session ≡ true
    pub answer : out ≡ redeemed x ticket

  -- A redemption that succeeds found a ticket with this token that was unused, in time and issued for
  -- this room, preset, protocol, content, configuration and map, whose session is the player's and
  -- open; it answers with the ticket's player.
  pub redeem_ticket-Admission :
      (x out : Ticket) (now : ℕ) (db db' : Db)
      → redeem_ticket lib up x now db ≡ (ok out, db')
      → Admission x now db out
  unfolding redeem_ticket
  redeem_ticket-Admission x out now db db' e =
      elim (Option-cases (ticket_of (lib.sha256_hex x.token) db)) [
        | inl absent ↦ absurd (ground arith)
        | inr (t, issued) ↦ elim (Option-cases (session_of t.session_hash db)) [
          | inl absent ↦ absurd (ground arith)
          | inr (s, found) ↦
              let may : is_redeemable x now t s ≡ true = ground arith in
              record {
                ticket = t;
                session = s;
                issued = issued;
                unused = ground (arith, may);
                in_time = ground (arith, may);
                meant = ground (arith, may);
                session_found = found;
                session_owner = ground (arith, may, text_iff s.player_id t.player_id);
                session_open = ground (arith, may);
                answer = ground arith;
              }
        ]
      ]
