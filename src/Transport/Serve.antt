-- ===== src/Transport/Serve.antt =====
-- Backend/transport/http.go: ServeHTTP, from the connection to the response.
use g_server.Common.{
  starts_with, ℕ, ℤ, pos, negsuc, Bool, true, false, not, ◌||◌, Option, none, some, List, [], ◌∷◌,
  String, ltb, length, ◌==◌, number_key, text_key, if◌then◌else◌, Dict, amount_of,
}
use Prim.Native.String.{◌++◌ as append}
use g_server.Transport.Message.{
  Response, Request, failure, detail, Decoder, Context, Exchange, refuse, denied,
}
use g_server.Transport.Number.{parse_uint}
use g_server.Store.{Db}
use g_server.Libs.{Libs}
use g_server.Transport.Limiter.{Windows, slot}
use g_server.Usecase.Service.{Service}
use g_server.Transport.Peer.{may_connect, Handler}
use g_server.Transport.Credential.{service_authorized}
use g_server.Transport.Routes.Players.{login_route, health_route, maps_route, player_routes}
use g_server.Transport.Routes.Progress.{progress_routes}
use g_server.Transport.Routes.Rooms.{redeem_route, room_routes}

abbrev pub limits : Dict ℕ
limits =
    ("/v1/auth/login", 5)
    ∷ ("/v1/auth/logout", 30)
    ∷ ("/v1/tickets", 30)
    ∷ ("/v1/rooms/allocate", 30)
    ∷ ("/v1/internal/tickets/redeem", 60)
    ∷ ("/v1/internal/rooms/register", 60)
    ∷ ("/v1/internal/rooms/heartbeat", 120)
    ∷ ("/v1/internal/rooms/release", 60)
    ∷ ("/v1/internal/progress/acquire", 60)
    ∷ ("/v1/internal/progress/renew", 120)
    ∷ ("/v1/internal/progress/release", 60)
    ∷ ("/v1/internal/progress/commit", 120)
    ∷ ("/v1/internal/progress/query", 120)
    ∷ ("/v1/internal/progress/snapshot", 60)
    ∷ ("/v1/internal/progress/equipment", 60)
    ∷ ("/v1/internal/progress/quests", 60)
    ∷ ("/v1/internal/progress/quest", 60)
    ∷ []

unfoldable pub limit_of : String → ℕ
limit_of path = amount_of path limits

abbrev pub max_body : ℕ
max_body = 8192

abbrev pub exceeds_body : ℤ → Bool
exceeds_body (pos n) = ltb max_body n
exceeds_body (negsuc n) = false

abbrev pub too_large : Response
too_large = failure 413 "request too large"

abbrev pub declared_refusal : Option ℕ → List String → Option Response
declared_refusal none more = some (failure 400 "invalid content length")
declared_refusal (some n) (v ∷ more) = some (failure 400 "invalid content length")
declared_refusal (some n) [] = if ltb max_body n then some too_large else none

-- The header Content-Length.
unfoldable pub header_refusal : List String → Option Response
unfolding parse_uint
header_refusal [] = none
header_refusal (v ∷ more) = declared_refusal (parse_uint v) more

-- The length that net/http has, and what http.MaxBytesReader lets through.
unfoldable pub body_refusal : Request → Option Response
body_refusal r =
    if exceeds_body r.content_length
    then some too_large
    else if ltb max_body (length r.body)
    then some too_large
    else if r.broken
    then some (failure 400 "invalid request")
    else none

abbrev pub too_many : Response
too_many = record { status = 429; retry_after = true; body = detail "rate limited" }

pub record State : Type 0 where
  pub db : Db
  pub windows : Windows

abbrev pub key_of : Request → String
key_of r = append r.path (append "|" r.ip)

-- A path without a limit passes.
unfoldable pub rate : Request → ℕ → Windows → Option (Bool × Windows)
rate r clock ws =
    if ltb 0 (limit_of r.path) then slot (key_of r) (limit_of r.path) clock ws else some (true, ws)

abbrev pub on_db : Response × Db → Windows → Response × State
on_db (out, db) ws = (out, record { db = db; windows = ws })

module _ (lib : Libs) (decoder : Decoder) (keys : List String) (service : Service)
    (cx : Context) where
  unfoldable pub internal_routes : Request → Exchange
  internal_routes r =
      if starts_with r.path "/v1/internal/progress/"
      then if service_authorized r.authorization service.service_token
        then progress_routes lib decoder cx r.body r.path
            (player_routes lib decoder service cx r.body r.path r.authorization)
        else refuse denied
      else if starts_with r.path "/v1/internal/rooms/"
      then if service_authorized r.authorization service.service_token
        then room_routes lib decoder cx r.body r.path
        else refuse denied
      else player_routes lib decoder service cx r.body r.path r.authorization

  unfoldable pub post_routes : Request → Exchange
  unfolding internal_routes
  post_routes r =
      if r.path == "/v1/auth/login"
      then login_route lib decoder service cx r.body
      else if r.path == "/v1/internal/tickets/redeem"
      then if service_authorized r.authorization service.service_token
        then redeem_route lib decoder cx r.body
        else refuse denied
      else internal_routes r

  unfoldable pub route : Request → Exchange
  unfolding post_routes
  route r =
      if r.path == "/health/live" || r.path == "/health/ready"
      then health_route lib decoder service cx r.body r.path r.method
      else if r.path == "/v1/maps"
      then maps_route lib decoder service cx r.body keys r.method r.authorization
      else if limit_of r.path == 0
      then refuse (failure 404 "Not Found")
      else if not (r.method == "POST")
      then refuse (failure 405 "Method Not Allowed")
      else post_routes r

  abbrev pub refused_or : Option Response → Exchange → Exchange
  refused_or none next = next
  refused_or (some out) next = refuse out

  unfoldable pub read_and_route : Request → Exchange
  unfolding header_refusal body_refusal route
  read_and_route r =
      refused_or (header_refusal r.content_lengths) (refused_or (body_refusal r) (route r))

  -- `none` is the limiter's panic.
  unfoldable pub serve_http : Handler → Request → State → Option (Response × State)
  unfolding may_connect rate
  serve_http h r st =
      if not (may_connect h r.tls r.address)
      then some (failure 400 "https required", st)
      else elim (rate r cx.clock st.windows) [
        | none ↦ none
        | some (false, ws) ↦ some (too_many, record st { windows = ws })
        | some (true, ws) ↦ some (on_db (read_and_route r st.db) ws)
      ]
