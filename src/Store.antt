-- ===== src/Store.antt =====
-- The PostgreSQL store of Backend/infra/postgres.go over the tables of Backend/migrations: the
-- database, its transactions, and the errors that a method of `PG` returns.
pub mod Version
pub mod Lease
pub mod Operation
pub mod Progress
pub mod Equipment
pub mod Quest
pub mod Session
pub mod Ticket
pub mod Room
pub mod Fencing
pub mod Keeps
pub mod Migration
use g_server.Common.{
  ℕ, ◌+◌, ◌*◌, Bool, true, false, Option, none, some, List, [], String, Dict, leb, find, ◌==◌,
  text_key,
}
use g_server.Domain.{SessionLease, RoomRecord, QuestState, Fields}

-- Timestamps count microseconds, PostgreSQL's resolution.
abbrev pub seconds : ℕ → ℕ
seconds n = n * 1000000

pub record PlayerRow : Type 0 where
  pub player_id : String
  pub username : String
  pub password_hash : String

pub record SessionRow : Type 0 where
  pub player_id : String
  pub token_hash : String
  pub expires_at : ℕ
  pub revoked_at : Option ℕ

pub record TicketRow : Type 0 where
  pub token_hash : String
  pub player_id : String
  pub session_hash : String
  pub room_id : String
  pub preset_id : String
  pub resolved_config_hash : String
  pub protocol_version : ℕ
  pub gameplay_content_hash : String
  pub expires_at : ℕ
  pub redeemed_at : Option ℕ
  pub map_id : String
  pub map_content_version : String
  pub map_authority_version : String

pub record ReservationRow : Type 0 where
  pub room_id : String
  pub player_id : String
  pub released_at : Option ℕ
  pub status : ℕ

pub record ProgressRow : Type 0 where
  pub player_id : String
  pub schema_version : ℕ
  pub revision : ℕ
  pub inventory : Dict ℕ
  pub equipment : Dict String
  pub unlocks : List String
  pub quests : List QuestState

pub record OperationRow : Type 0 where
  pub player_id : String
  pub operation_id : String
  pub payload_hash : String
  pub status : String
  pub result : Fields
  pub revision : ℕ

pub record Db : Type 0 where
  pub players : List PlayerRow
  pub sessions : List SessionRow
  pub tickets : List TicketRow
  pub rooms : List RoomRecord
  pub reservations : List ReservationRow
  pub progress : List ProgressRow
  pub leases : List SessionLease
  pub operations : List OperationRow

abbrev pub empty : Db
empty = record {
  players = [];
  sessions = [];
  tickets = [];
  rooms = [];
  reservations = [];
  progress = [];
  leases = [];
  operations = [];
}

-- `no_rows` is pgx.ErrNoRows; `constraint` a violated key or reference; `out_of_range` an integer
-- that the column cannot hold; `invalid_text` a text that is no jsonb; `unavailable` a connection that fails.
pub data Error : Type 0 where
  no_rows unauthorized rejected conflict constraint out_of_range invalid_text unavailable : Error
  unsupported_version version_mismatch map_unavailable invalid_capacity invalid_heartbeat : Error
  invalid_payload payload_conflict invalid_equipment equipment_conflict : Error
  invalid_quest quest_conflict requirement_mismatch : Error

pub data Result (A : Type 0) : Type 0 where
  ok : A → Result A
  err : Error → Result A

-- What a method does to the database. A body that fails may leave writes behind: `transact` undoes
-- them.
abbrev pub Query : Type 0 → Type 0
Query A = Db → Result A × Db

-- Statement after statement, until one fails.
abbrev pub then_do : {A B : Type 0} → Result A × Db → (A → Query B) → Result B × Db
then_do (err e, db) rest = (err e, db)
then_do (ok a, db) rest = rest a db

infixl 5 ◌>>=◌ ◌>>◌
abbrev pub ◌>>=◌ : {A B : Type 0} → Query A → (A → Query B) → Query B
◌>>=◌ first rest db = then_do (first db) rest

abbrev pub ◌>>◌ : {A B : Type 0} → Query A → Query B → Query B
◌>>◌ first rest db = then_do (first db) (λ _. rest)

abbrev pub raise : {A : Type 0} → Error → Query A
raise e db = (err e, db)

abbrev pub pure : {A : Type 0} → A → Query A
pure a db = (ok a, db)

abbrev pub select : {A : Type 0} → (Db → A) → Query A
select f db = (ok (f db), db)

abbrev pub write : (Db → Db) → Query (Unit {0})
write f db = (ok tt, f db)

-- A query that must find something.
abbrev pub or_raise : {A : Type 0} → Error → Option A → Query A
or_raise e (some a) = pure a
or_raise e none = raise e

abbrev pub raise_if : Bool → Error → Query (Unit {0})
raise_if test e = elim test [ true ↦ raise e | false ↦ pure tt ]

-- How the connection serves one transaction: `ack_lost` commits, and the caller never hears of it.
pub data Link : Type 0 where
  up begin_fails commit_fails ack_lost : Link

abbrev pub settle : {A : Type 0} → Link → Db → Result A × Db → Result A × Db
settle begin_fails db r = (err unavailable, db)
settle up db (ok a, db') = (ok a, db')
settle up db (err e, db') = (err e, db)
settle commit_fails db (ok a, db') = (err unavailable, db)
settle commit_fails db (err e, db') = (err e, db)
settle ack_lost db (ok a, db') = (err unavailable, db')
settle ack_lost db (err e, db') = (err e, db)

-- `Begin`, the statements, `Commit`, with `defer tx.Rollback`. A statement sent to the pool is a
-- transaction of its own.
abbrev pub transact : {A : Type 0} → Link → Query A → Query A
transact link body db = settle link db (body db)

-- `n + k` in a column of type int (4 bytes) or bigint (8 bytes): past its largest value the
-- statement fails.
abbrev pub add_within : ℕ → ℕ → ℕ → Query ℕ
add_within largest n k = elim (leb (n + k) largest) [
  | true ↦ pure (n + k)
  | false ↦ raise out_of_range
]

abbrev pub max_int : ℕ
max_int = 2147483647

abbrev pub max_bigint : ℕ
max_bigint = 9223372036854775807

-- The foreign keys to `player`.
abbrev pub player_exists : String → Db → Bool
player_exists player db = elim (find (λ r. r.player_id == player) db.players) [
  | none ↦ false
  | some _ ↦ true
]
