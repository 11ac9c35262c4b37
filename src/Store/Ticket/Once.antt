-- ===== src/Store/Ticket/Once.antt =====
-- A ticket admits once, whatever is issued and redeemed afterwards.
use g_server.Common.{
  ℕ, String, ◌≡◌, refl, ◌≢◌, inl, inr, false, ◌&&◌, Option, none, some, arith, ◌==◌, number_key,
  text_key, Option-cases, find, find-update, find-append_old, find_holds,
}
use g_server.Domain.{Ticket}
use g_server.Libs.{Libs}
use g_server.Store.{Db, Link, TicketRow, SessionRow, up, ok}
use g_server.Store.Session.{is_null, is_session, is_open}
use g_server.Store.Ticket.{
  is_ticket, ticket_of, ticket_row, insert_ticket, issue_ticket, redeem_ticket,
}
use g_server.Store.Ticket.Redeem.{redeem_ticket-Admission}

-- The ticket with this hash has been redeemed.
abbrev IsSpentRow : Option TicketRow → Type 0
IsSpentRow none = ⊥
IsSpentRow (some t) = is_null t.redeemed_at ≡ false

abbrev pub IsSpent : String → Db → Type 0
IsSpent hash db = IsSpentRow (ticket_of hash db)

insert_ticket-IsSpent :
    (hash : String) (r : TicketRow) (db : Db)
    → IsSpent hash db
    → IsSpent hash (insert_ticket r db).1
unfolding insert_ticket
insert_ticket-IsSpent hash r db h = elim (Option-cases (ticket_of hash db)) [
  | inl absent ↦ absurd (ground arith)
  | inr (t, found) ↦ ground (arith, find-append_old (is_ticket hash) db.tickets r found)
]

issue_ticket-IsSpent :
    (link : Link) (x : Ticket) (ticket_hash session_hash hash : String) (now : ℕ) (db : Db)
    → IsSpent hash db
    → IsSpent hash (issue_ticket link x ticket_hash session_hash now db).1
unfolding issue_ticket
issue_ticket-IsSpent link x ticket_hash session_hash hash now db h =
    elim (Option-cases (
      find
        (λ (r : SessionRow).
          is_session session_hash r && r.player_id == x.player_id && is_open now r)
        db.sessions)) [
          | inl absent ↦ ground arith
          | inr (s, found) ↦ ground (
            arith,
            insert_ticket-IsSpent hash (ticket_row x s.player_id ticket_hash session_hash now) db h,
          )
        ]

module _ (lib : Libs) where
  redeem_ticket-IsSpent :
      (link : Link) (x : Ticket) (hash : String) (now : ℕ) (db : Db)
      → IsSpent hash db
      → IsSpent hash (redeem_ticket lib link x now db).1
  unfolding redeem_ticket
  redeem_ticket-IsSpent link x hash now db h = ground (
    arith,
    find-update (is_ticket hash) (is_ticket (lib.sha256_hex x.token))
        (λ (r : TicketRow). record r { redeemed_at = some now }) db.tickets (λ r. refl),
  )

  -- What may happen to the tickets; any other call is `elsewhere`.
  pub data Step (db db' : Db) : Type 0 where
    issues :
        (link : Link) (x : Ticket) (ticket_hash session_hash : String) (now : ℕ)
        → db' ≡ (issue_ticket link x ticket_hash session_hash now db).1
        → Step db db'
    redeems :
        (link : Link) (x : Ticket) (now : ℕ)
        → db' ≡ (redeem_ticket lib link x now db).1
        → Step db db'
    elsewhere : db'.tickets ≡ db.tickets → Step db db'

  pub data History (db : Db) : Db → Type 0 where
    here : History db db
    next : {d e : Db} → History db d → Step d e → History db e

  Step-IsSpent : {db db' : Db} (hash : String) → Step db db' → IsSpent hash db → IsSpent hash db'
  Step-IsSpent {db} hash (issues link x t s now e) h =
      rw e (issue_ticket-IsSpent link x t s hash now db h)
  Step-IsSpent {db} hash (redeems link x now e) h =
      rw e (redeem_ticket-IsSpent link x hash now db h)
  Step-IsSpent hash (elsewhere e) h = rw e h

  History-IsSpent :
      {db db' : Db} (hash : String) → History db db' → IsSpent hash db → IsSpent hash db'
  History-IsSpent hash here h = h
  History-IsSpent hash (next k s) h = Step-IsSpent hash s (History-IsSpent hash k h)

  spends :
      (x out : Ticket) (now : ℕ) (db db' : Db)
      → redeem_ticket lib up x now db ≡ (ok out, db')
      → IsSpent (lib.sha256_hex x.token) db'
  unfolding redeem_ticket
  spends x out now db db' e =
      let k = redeem_ticket-Admission lib x out now db db' e in
      ground (
        arith,
        k.issued,
        find_holds (is_ticket (lib.sha256_hex x.token)) db.tickets k.issued,
        find-update (is_ticket (lib.sha256_hex x.token)) (is_ticket (lib.sha256_hex x.token))
            (λ (r : TicketRow). record r { redeemed_at = some now }) db.tickets (λ r. refl),
      )

  -- After a redemption that succeeds, whatever tickets are issued and redeemed, no request with a
  -- token of the same hash is ever let in.
  pub redeemed_once :
      (x out : Ticket) (now : ℕ) (db db₁ db₂ : Db) (y out' : Ticket) (later : ℕ)
      → redeem_ticket lib up x now db ≡ (ok out, db₁)
      → History db₁ db₂
      → lib.sha256_hex y.token ≡ lib.sha256_hex x.token
      → (redeem_ticket lib up y later db₂).0 ≢ ok out'
  redeemed_once x out now db db₁ db₂ y out' later e h same again =
      let k =
        redeem_ticket-Admission lib y out' later db₂ (redeem_ticket lib up y later db₂).1
          (ground (arith, again)) in
      let spent = History-IsSpent (lib.sha256_hex x.token) h (spends x out now db db₁ e) in
      ground (arith, k.issued, k.unused, same, spent)
