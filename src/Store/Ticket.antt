-- ===== src/Store/Ticket.antt =====
-- Backend/infra/postgres.go: IssueTicket and RedeemTicket. A ticket admits a player to a room once.
pub mod Redeem
pub mod Once
use g_server.Common.{
  ℕ, ◌+◌, Bool, not, ◌&&◌, Option, none, some, [], ◌∷◌, ◌++◌, String, ltb, find, update, ◌==◌,
  number_key, text_key, if◌then◌else◌,
}
use g_server.Domain.{Ticket}
use g_server.Libs.{Libs}
use g_server.Store.{
  Db, SessionRow, TicketRow, Query, Link, transact, pure, raise, raise_if, select, or_raise, write,
  ◌>>=◌, ◌>>◌, no_rows, constraint, player_exists, seconds,
}
use g_server.Store.Session.{is_null, is_session, is_open, session_of}

abbrev pub is_ticket : String → TicketRow → Bool
is_ticket hash r = r.token_hash == hash

abbrev pub ticket_of : String → Db → Option TicketRow
ticket_of hash db = find (is_ticket hash) db.tickets

abbrev pub ticket_row : Ticket → String → String → String → ℕ → TicketRow
ticket_row x player ticket_hash session_hash now = record {
  token_hash = ticket_hash;
  player_id = player;
  session_hash = session_hash;
  room_id = x.room_id;
  preset_id = x.preset_id;
  resolved_config_hash = x.config_hash;
  protocol_version = x.protocol;
  gameplay_content_hash = x.content;
  expires_at = now + seconds 60;
  redeemed_at = none;
  map_id = x.map_id;
  map_content_version = x.map_content_version;
  map_authority_version = x.map_authority_version;
}

-- `token_hash` is the primary key.
unfoldable pub insert_ticket : TicketRow → Query (Unit {0})
insert_ticket r db = elim (ticket_of r.token_hash db) [
  | some _ ↦ raise constraint db
  | none ↦
      if player_exists r.player_id db
      then write (λ d. record d { tickets = d.tickets ++ r ∷ [] }) db
      else raise constraint db
]

unfoldable pub issue_ticket : Link → Ticket → String → String → ℕ → Query (Unit {0})
unfolding insert_ticket
issue_ticket link x ticket_hash session_hash now = transact link do
  s ←
      or_raise no_rows
        (← select (λ db.
          find (λ r. is_session session_hash r && r.player_id == x.player_id && is_open now r)
            db.sessions))
  insert_ticket (ticket_row x s.player_id ticket_hash session_hash now)

-- The columns that the update compares with the request.
abbrev pub is_for : Ticket → TicketRow → Bool
is_for x r =
    r.room_id == x.room_id
    && r.protocol_version == x.protocol
    && r.gameplay_content_hash == x.content
    && r.resolved_config_hash == x.config_hash
    && r.preset_id == x.preset_id
    && r.map_id == x.map_id
    && r.map_content_version == x.map_content_version
    && r.map_authority_version == x.map_authority_version

-- `exists(select 1 from session …)`.
abbrev pub session_admits : ℕ → TicketRow → SessionRow → Bool
session_admits now t s = s.player_id == t.player_id && is_open now s

abbrev pub is_redeemable : Ticket → ℕ → TicketRow → SessionRow → Bool
is_redeemable x now t s =
    is_null t.redeemed_at && ltb now t.expires_at && is_for x t && session_admits now t s

-- The caller's token, protocol and content are put into the answer as they came.
abbrev pub redeemed : Ticket → TicketRow → Ticket
redeemed x t = record {
  token = x.token;
  player_id = t.player_id;
  room_id = t.room_id;
  preset_id = t.preset_id;
  config_hash = t.resolved_config_hash;
  map_id = t.map_id;
  map_content_version = t.map_content_version;
  map_authority_version = t.map_authority_version;
  protocol = x.protocol;
  content = x.content;
}

module _ (lib : Libs) where
  unfoldable pub redeem_ticket : Link → Ticket → ℕ → Query Ticket
  redeem_ticket link x now = transact link do
    t ← or_raise no_rows (← select (ticket_of (lib.sha256_hex x.token)))
    s ← or_raise no_rows (← select (session_of t.session_hash))
    raise_if (not (is_redeemable x now t s)) no_rows
    write (λ d. record d {
      tickets =
          update (is_ticket (lib.sha256_hex x.token)) (λ r. record r { redeemed_at = some now })
            d.tickets;
    })
    pure (redeemed x t)
