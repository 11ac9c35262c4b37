-- ===== src/Transport/Message.antt =====
-- Backend/transport/http.go: the requests, their bodies once decoded, and the responses.
use g_server.Common.{ℕ, ℤ, Bool, false, Option, none, some, List, String, if◌then◌else◌}
use g_server.Domain.{
  Fields, SessionLease, OperationResult, ProgressSnapshot, QuestSnapshot, RoomRecord, ProgressQuery,
}
use g_server.Usecase.Maps.{MapPackage}
use g_server.Store.{Db, Error, Result, ok, err, Query, no_rows, unauthorized, conflict, Link}
use g_server.Transport.Number.{Float}
use g_server.Transport.Peer.{Ip}

pub record LoginRequest : Type 0 where
  pub username : String
  pub password : String

-- A negative protocol version, refused like 0, is read as 0.
pub record TicketRequest : Type 0 where
  pub preset : String
  pub map_id : String
  pub proto : ℕ
  pub content : String

pub record RedeemRequest : Type 0 where
  pub ticket : String
  pub room : String
  pub preset : String
  pub proto : ℕ
  pub content : String
  pub config : String
  pub map_id : String
  pub map_content_version : String
  pub map_authority_version : String

pub record LeaseRequest : Type 0 where
  pub player_id : String
  pub room_id : String
  pub fencing_token : Float

-- The payload as it came, a text.
pub record CommitRequest : Type 0 where
  pub player_id : String
  pub room_id : String
  pub fencing_token : Float
  pub expected_revision : Float
  pub operation_id : String
  pub payload : String

pub record EquipmentRequest : Type 0 where
  pub player_id : String
  pub room_id : String
  pub fencing_token : Float
  pub expected_revision : Float
  pub operation_id : String
  pub slot : String
  pub item_id : String
  pub equipped : Bool

-- The anonymous structs of the routes.
pub record PlayerRequest : Type 0 where
  pub player_id : String

pub record QuestRequest : Type 0 where
  pub player_id : String
  pub room_id : String
  pub fencing_token : Float
  pub expected_revision : Float
  pub operation_id : String
  pub quest_id : String
  pub objective_id : String
  pub amount : Float

-- A negative generation or capacity is read as 0, which is refused too.
pub record RoomRequest : Type 0 where
  pub room_id : String
  pub generation : ℕ
  pub capacity : ℕ
  pub used_players : ℤ
  pub status : String
  pub player_id : String

-- `decode`: encoding/json on the bytes of a body, with unknown fields refused and nothing after the
-- value. Of a room, negative numbers are read as 0, which is refused too or not used.
pub record Decoder : Type 0 where
  pub login : List ℕ → Option LoginRequest
  pub ticket : List ℕ → Option TicketRequest
  pub redeem : List ℕ → Option RedeemRequest
  pub lease : List ℕ → Option LeaseRequest
  pub commit : List ℕ → Option CommitRequest
  pub equipment : List ℕ → Option EquipmentRequest
  pub quest : List ℕ → Option QuestRequest
  pub query : List ℕ → Option ProgressQuery
  pub player : List ℕ → Option PlayerRequest
  pub register : List ℕ → Option RoomRecord
  pub room : List ℕ → Option RoomRequest

-- `ip` is the host of the remote address, `address` that text parsed; `content_lengths` are the
-- values of the header, `content_length` the length that net/http has, -1 if unknown; `body` is what
-- can be read, `broken` whether an error follows it.
pub record Request : Type 0 where
  pub tls : Bool
  pub ip : String
  pub address : Option Ip
  pub path : String
  pub method : String
  pub authorization : String
  pub content_lengths : List String
  pub content_length : ℤ
  pub body : List ℕ
  pub broken : Bool

pub data Body : Type 0 where
  detail : String → Body
  object : Fields → Body
  lease : SessionLease → Body
  operation : OperationResult → Body
  progress : ProgressSnapshot → Body
  quests : QuestSnapshot → Body
  room : RoomRecord → Body
  maps : List MapPackage → Body

pub record Response : Type 0 where
  pub status : ℕ
  pub retry_after : Bool
  pub body : Body

abbrev pub response : ℕ → Body → Response
response status body = record { status = status; retry_after = false; body = body }

abbrev pub failure : ℕ → String → Response
failure status s = response status (detail s)

abbrev pub invalid : Response
invalid = failure 422 "invalid request"

abbrev pub denied : Response
denied = failure 401 "unauthorized"

unfoldable pub db_error : Error → Response
db_error no_rows = failure 401 "unauthorized"
db_error unauthorized = failure 401 "unauthorized"
db_error conflict = failure 409 "conflict"
db_error _ = failure 503 "database unavailable"

-- What a route does: a response, and the database that it leaves.
abbrev pub Exchange : Type 0
Exchange = Db → Response × Db

abbrev pub refuse : Response → Exchange
refuse r db = (r, db)

abbrev pub send : {A : Type 0} → (Error → Response) → (A → Response) → Result A × Db → Response × Db
send fail done (ok a, db) = (done a, db)
send fail done (err e, db) = (fail e, db)

-- A call of the service and the response to its outcome.
abbrev pub answer : {A : Type 0} → (Error → Response) → (A → Response) → Query A → Exchange
answer fail done q db = send fail done (q db)

-- `if !decode(b, &x) || … { failure(w, 422, …); return }`.
abbrev pub when_valid : {X : Type 0} → (X → Bool) → Option X → (X → Exchange) → Exchange
when_valid valid none next db = refuse invalid db
when_valid valid (some x) next db = if valid x then next x db else refuse invalid db

-- The session that `Auth` finds goes on to the rest of the route.
abbrev pub authorized : {A : Type 0} → (A → Exchange) → Result A × Db → Response × Db
authorized next (ok a, db) = next a db
authorized next (err e, db) = (db_error e, db)

-- What happens around one request: how the connection serves its calls of the database in turn,
-- which rooms are locked, the token that is drawn, the clock of the limiter, and the database's time.
pub record Context : Type 0 where
  pub link : ℕ → Link
  pub locked : String → Bool
  pub token : String
  pub clock : ℕ
  pub now : ℕ
