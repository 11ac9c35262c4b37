-- ===== src/Tests/Http.antt =====
-- Requests to a handler: what is refused, the rate, and a logout.
use Prim.Native.String.{◌++◌ as append}
use g_server.Common.{
  pos, true, false, none, some, [], ◌∷◌, String, ◌≡◌, ◌≢◌, ◌≤◌, ◌<◌, refl, arith, lookup, insert,
  find, update, number_key, text_key, ◌==◌, ◌&&◌, ◌||◌, not, text_iff, ◌+◌, ◌*◌, sym,
}
use g_server.Domain.{preset, content, proto}
use g_server.Store.{Db, up}
use g_server.Tests.Sample.{lib, fresh}
use g_server.Usecase.Service.{Service, valid_preset, auth}
use g_server.Transport.Message.{
  Decoder, Request, Response, Context, denied, failure, response, TicketRequest, db_error,
}
use g_server.Transport.Peer.{Handler, v4, may_connect}
use g_server.Transport.Serve.{
  State, serve_http, rate, limit_of, read_and_route, header_refusal, body_refusal, route,
  post_routes, internal_routes,
}
use g_server.Transport.Limiter.{Windows, slot, sweep, last, drop_stale}
use g_server.Transport.Internal.{IsRefused}
use g_server.Transport.Guards.{internal_needs_token}
use g_server.Transport.Credential.{service_authorized, scheme, bearer, fields_from, equal_fold}
use g_server.Transport.Routes.Players.{player_routes, place_route, with_session, logout_route}
use g_server.Transport.Sessions.{session_needed, has_session}
use g_server.Transport.Logout.{logout_ends_session}
use g_server.Usecase.Maps.{map_definition_for}
use g_server.Transport.Flow.{Runs, Runs-answers, answered, Runs-limited, opened}
use g_server.Transport.Limiter.Decision.{granted}
use g_server.Transport.Routes.Progress.{status_ok}
use g_server.Transport.Errors.{unknown_map}
use g_server.Store.Session.{find_session, revoke_session, create_session}
use g_server.Store.Session.Ended.{here, next, signs_in}
use g_server.Transport.Status.Serve.{status_of, is_routed, method_of, route-is_reply}
use g_server.Transport.Status.{is_reply}

abbrev nowhere : TicketRequest
nowhere = record { preset = preset; map_id = "nowhere"; proto = proto; content = content }

abbrev pub decoder : Decoder
decoder = record {
  login = λ b. some (record { username = "Ann"; password = "secret" });
  ticket = λ b. some nowhere;
  redeem = λ b. none;
  lease = λ b. none;
  commit = λ b. none;
  equipment = λ b. none;
  quest = λ b. none;
  query = λ b. none;
  player = λ b. none;
  register = λ b. none;
  room = λ b. none;
}

abbrev pub service : Service
service = record {
  service_token = "0123456789abcdef0123456789abcdef";
  host = "127.0.0.1";
  port = 7000;
}

abbrev pub cx : Context
cx = record { link = λ n. up; locked = λ r. false; token = "token-2"; clock = 5; now = 10 }

abbrev pub later : Context
later = record cx { clock = 7; now = 20 }

abbrev handler : Handler
handler = record { allow_http = false; allow_dev_docker_http = false }

-- A request with an empty body.
abbrev pub request : String → String → Request
request path authorization = record {
  tls = true;
  ip = "10.0.0.1";
  address = some (v4 10 0 0 1);
  path = path;
  method = "POST";
  authorization = authorization;
  content_lengths = [];
  content_length = pos 0;
  body = [];
  broken = false;
}

-- One session of the player, with the token "token-1".
abbrev pub logged_in : Db
logged_in = record fresh {
  sessions =
      record { player_id = "ann"; token_hash = "token-1"; expires_at = 900; revoked_at = none }
      ∷ [];
}

abbrev pub windows : String → Windows
windows path = (append path "|10.0.0.1", 5 ∷ []) ∷ []

abbrev redeem_path : String
redeem_path = "/v1/internal/tickets/redeem"

abbrev wrong_token : Request
wrong_token = request redeem_path "Bearer guess"

denied_redeem :
    serve_http lib decoder [] service cx handler wrong_token (record { db = fresh; windows = [] })
    ≡ some (denied, record { db = fresh; windows = windows redeem_path })
unfolding serve_http may_connect rate slot sweep last drop_stale lookup insert limit_of
    read_and_route header_refusal body_refusal route post_routes internal_routes service_authorized
denied_redeem = refl

guess_differs : wrong_token.authorization ≢ append scheme service.service_token
guess_differs e =
    ground (arith, (text_iff wrong_token.authorization (append scheme service.service_token)).1 e)

internal_needs_token_example : IsRefused denied fresh fresh
internal_needs_token_example =
    internal_needs_token lib decoder [] service cx handler wrong_token
      (record { db = fresh; windows = [] }) (record { db = fresh; windows = windows redeem_path })
      denied refl guess_differs denied_redeem

-- Nobody is logged in with "token-2".
abbrev stranger : Request
stranger = request "/v1/tickets" "Bearer token-2"

abbrev tickets_after : State
tickets_after = record { db = logged_in; windows = windows "/v1/tickets" }

stranger_refused :
    serve_http lib decoder [] service cx handler stranger (record { db = logged_in; windows = [] })
    ≡ some (denied, tickets_after)
unfolding serve_http may_connect rate slot sweep last drop_stale lookup insert limit_of
    read_and_route header_refusal body_refusal route post_routes internal_routes player_routes
    with_session bearer fields_from equal_fold auth find_session find db_error
stranger_refused = refl

no_session : has_session lib decoder [] service cx stranger.authorization logged_in ≡ false
unfolding bearer fields_from equal_fold find
no_session = refl

session_needed_example : IsRefused denied logged_in logged_in
session_needed_example =
    session_needed lib decoder [] service cx handler stranger
      (record { db = logged_in; windows = [] }) tickets_after denied refl no_session
      stranger_refused

-- The player logs out, and asks for a ticket with the same token.
abbrev logout : Request
logout = request "/v1/auth/logout" "bearer token-1"

abbrev again : Request
again = request "/v1/tickets" "bearer token-1"

abbrev logged_out : State
logged_out = record {
  db = record fresh {
    sessions =
        record { player_id = "ann"; token_hash = "token-1"; expires_at = 900; revoked_at = some 10 }
        ∷ [];
  };
  windows = windows "/v1/auth/logout";
}

-- The player has signed in anew.
abbrev signed_in_again : State
signed_in_again = record logged_out {
  db = record fresh {
    sessions =
        record { player_id = "ann"; token_hash = "token-1"; expires_at = 900; revoked_at = some 10 }
        ∷ record {
          player_id = "ann";
          token_hash = "token-2";
          expires_at = 20 + 900 * 1000000;
          revoked_at = none;
        }
        ∷ [];
  };
}

signs_in_again : (create_session up "ann" "token-2" 20 logged_out.db).1 ≡ signed_in_again.db
unfolding create_session find
signs_in_again = refl

abbrev refused_after : State
refused_after = record signed_in_again {
  windows = ("/v1/auth/logout|10.0.0.1", 5 ∷ []) ∷ ("/v1/tickets|10.0.0.1", 7 ∷ []) ∷ [];
}

logs_out :
    serve_http lib decoder [] service cx handler logout (record { db = logged_in; windows = [] })
    ≡ some (response 200 status_ok, logged_out)
unfolding serve_http may_connect rate slot sweep last drop_stale lookup insert limit_of
    read_and_route header_refusal body_refusal route post_routes internal_routes player_routes
    with_session bearer fields_from equal_fold auth find_session find logout_route revoke_session
    update
logs_out = refl

again_refused :
    serve_http lib decoder [] service later handler again signed_in_again
    ≡ some (denied, refused_after)
unfolding serve_http may_connect rate slot sweep last drop_stale lookup insert limit_of
    read_and_route header_refusal body_refusal route post_routes internal_routes player_routes
    with_session bearer fields_from equal_fold auth find_session find db_error
again_refused = refl

logout_ends_session_example : IsRefused denied signed_in_again.db refused_after.db
logout_ends_session_example =
    logout_ends_session lib decoder [] service cx later handler logout again
      (record { db = logged_in; windows = [] }) logged_out signed_in_again refused_after
      (response 200 status_ok) denied refl logs_out refl
      (next here (signs_in up "ann" "token-2" 20 (sym signs_in_again))) refl refl again_refused

-- The decoder's request names a map that the catalog does not have.
no_such_map : map_definition_for "nowhere" ≡ none
unfolding map_definition_for lookup
no_such_map = refl

known_preset : valid_preset preset content proto ≡ true
unfolding valid_preset
known_preset = refl

unknown_map_example :
    place_route lib decoder service cx [] "/v1/tickets"
      (record { player_id = "ann"; token_hash = "token-1" })
      logged_in
    ≡ (failure 503 "database unavailable", logged_in)
unknown_map_example =
    unknown_map lib decoder service cx [] (record { player_id = "ann"; token_hash = "token-1" })
      nowhere logged_in "/v1/tickets" refl refl known_preset no_such_map

-- After one request the limiter counts it.
abbrev empty_state : State
empty_state = record { db = logged_in; windows = [] }

stranger-Runs :
    Runs lib decoder [] service handler 5 (("/v1/tickets|10.0.0.1", 5) ∷ []) (windows "/v1/tickets")
unfolding limit_of lookup may_connect
stranger-Runs =
    answered cx stranger logged_in denied tickets_after opened (omega arith) stranger_refused

some_limit : 0 < limit_of "/v1/tickets"
unfolding limit_of lookup
some_limit = omega arith

Runs-limited_example :
    granted "/v1/tickets|10.0.0.1" 9 (("/v1/tickets|10.0.0.1", 5) ∷ []) ≤ limit_of "/v1/tickets"
Runs-limited_example =
    Runs-limited lib decoder [] service handler stranger 9 stranger-Runs (omega arith) some_limit

Runs-answers_example :
    (out : Response) × (st' : State) × (serve_http lib decoder [] service later handler again
        (record { db = logged_in; windows = windows "/v1/tickets" })
      ≡ some (out, st'))
Runs-answers_example =
    Runs-answers lib decoder [] service handler later again logged_in stranger-Runs (omega arith)

route-is_reply_example :
    ((status_of lib decoder [] service cx stranger logged_in == 404)
      ≡ not (is_routed "/v1/tickets"))
    × ((status_of lib decoder [] service cx stranger logged_in == 405)
        ≡ (is_routed "/v1/tickets" && not ("POST" == method_of "/v1/tickets")))
    × ((status_of lib decoder [] service cx stranger logged_in == 404
          || status_of lib decoder [] service cx stranger logged_in == 405
          || is_reply (status_of lib decoder [] service cx stranger logged_in))
        ≡ true)
route-is_reply_example = route-is_reply lib decoder [] service cx stranger logged_in
