-- ===== src/Tests/Server.antt =====
-- Runs of the program, and the tests of a request's size and numbers.
use g_server.Transport.Limiter.{slot}
use g_server.Transport.Message.{failure}
use g_server.Common.{
  ◌++◌, pos, true, false, Option, none, some, List, [], ◌∷◌, String, ◌≡◌, ◌≢◌, refl, arith, lookup,
  insert, find, number_key, text_key, ◌==◌, text_iff, if◌then◌else◌, text_refl, not, update,
}
use g_server.Store.{Db, up, ok}
use g_server.Store.Migration.{
  Schema, migrate, script_names, insert_name, migrate_files, migrate_file, read_file,
}
use g_server.Tests.Sample.{lib, fresh}
use g_server.Tests.Http.{decoder, cx, request, windows}
use g_server.Process.Commands.{
  World, run, serving, finished, opens, is_schema, run_serve, run_seed, run_migrate,
}
use g_server.Process.Config.{Config, Environment, config_for, atoi, has_colon}
use g_server.Process.Seed.{Bytes, id_of, hex, upsert_player, upsert_row}
use g_server.Process.Serving.{IsConfigured, run-IsConfigured, tls_needed}
use g_server.Transport.Number.{digits_from}
use g_server.Transport.Serve.{
  State, serve_http, rate, limit_of, read_and_route, header_refusal, body_refusal, route,
  post_routes, internal_routes,
}
use g_server.Transport.Message.{Request, denied}
use g_server.Store.Session.{session_of}
use g_server.Usecase.Service.{login, auth}
use g_server.Transport.Peer.{may_connect}
use g_server.Process.Login.{seed_then_login}
use g_server.Transport.Limiter.{sweep, last, drop_stale}
use g_server.Transport.Credential.{service_authorized}
use g_server.Store.Migration.Replay.{AreApplied}
use g_server.Store.Version.Migration.{is_current}
use g_server.Process.Migrated.{run_migrate_once}
use g_server.Store.Version.{migrate_progress_schema, max_version, raise_versions}

abbrev service_token : String
service_token = "0123456789abcdef0123456789abcdef"

-- TLS, and the defaults.
abbrev tls_env : Environment
tls_env k =
    if k == "DATABASE_URL"
    then "postgres://localhost/g0"
    else if k == "ROOM_SERVICE_TOKEN"
    then service_token
    else if k == "TLS_CERT_FILE"
    then "cert.pem"
    else if k == "TLS_KEY_FILE"
    then "key.pem"
    else if k == "G0_TEST_PASSWORD"
    then "secret"
    else ""

abbrev bytes : Bytes
bytes = record {
  b0 = 1;
  b1 = 2;
  b2 = 3;
  b3 = 4;
  b4 = 5;
  b5 = 6;
  b6 = 255;
  b7 = 8;
  b8 = 9;
  b9 = 10;
  b10 = 11;
  b11 = 12;
  b12 = 13;
  b13 = 14;
  b14 = 15;
  b15 = 16;
}

-- A hash is the password, as the samples take it.
abbrev world : List String → World
world args = record {
  args = args;
  getenv = tls_env;
  accepts_url = λ url. true;
  read_dir = λ path. none;
  link = λ n. up;
  create_hash = λ password. some password;
  random = some bytes;
}

abbrev exec : String → Db → Option Db
exec script db = some db

abbrev stored : Schema Db
stored = record { state = fresh; applied = [] }

the_id : id_of bytes ≡ "01020304-0506-4f08-890a-0b0c0d0e0f10"
unfolding id_of hex
the_id = refl

a_port : atoi "7000" ≡ some (pos 7000)
unfolding atoi digits_from
a_port = refl

no_port : atoi "70x0" ≡ none
unfolding atoi digits_from
no_port = refl

serves_tls : run lib exec (world []) stored ≡ (serving (config_for tls_env 7000), stored)
unfolding run opens is_schema run_serve atoi digits_from has_colon
serves_tls = refl

run-IsConfigured_example : IsConfigured tls_env (config_for tls_env 7000) × (stored ≡ stored)
run-IsConfigured_example =
    run-IsConfigured lib exec (world []) stored stored (config_for tls_env 7000) serves_tls

abbrev pub config : Config
config = config_for tls_env 7000

abbrev pub start : State
start = record { db = fresh; windows = [] }

-- An internal path with a token of five bytes.
abbrev redeem_path : String
redeem_path = "/v1/internal/tickets/redeem"

abbrev guess : Request
guess = request redeem_path "Bearer guess"

guess_refused :
    serve_http lib decoder [] config.service cx config.handler guess start
    ≡ some (denied, record { db = fresh; windows = windows redeem_path })
unfolding serve_http may_connect rate slot sweep last drop_stale lookup insert limit_of
    read_and_route header_refusal body_refusal route post_routes internal_routes service_authorized
guess_refused = refl

-- The same without TLS.
abbrev plain : Request
plain = record guess { tls = false }

refused_plain :
    serve_http lib decoder [] config.service cx config.handler plain start
    ≡ some (failure 400 "https required", start)
unfolding serve_http may_connect
refused_plain = refl

no_loopback : tls_env "ALLOW_LOOPBACK_HTTP" ≢ "1"
no_loopback e = ground (arith, (text_iff (tls_env "ALLOW_LOOPBACK_HTTP") "1").1 e)

no_docker : tls_env "ALLOW_DEV_DOCKER_HTTP" ≢ "1"
no_docker e = ground (arith, (text_iff (tls_env "ALLOW_DEV_DOCKER_HTTP") "1").1 e)

tls_needed_example :
    ((config.cert == "") ≡ false)
    × ((config.key == "") ≡ false)
    × ((failure 400 "https required").status ≡ 400)
    × (start ≡ start)
tls_needed_example =
    tls_needed lib exec (world []) decoder [] stored stored config cx plain start start
      (failure 400 "https required") serves_tls no_loopback no_docker refl refused_plain

-- One script, applied by the command migrate.
abbrev migrates : World
migrates = record (world ("migrate" ∷ [])) {
  read_dir =
      λ path. some (record { name = "001.sql"; is_dir = false; content = some "create" } ∷ []);
}

abbrev migrated : Schema Db
migrated = record stored { applied = ("001.sql", "create") ∷ [] }

migrates_one : run lib exec migrates stored ≡ (finished, migrated)
unfolding run opens is_schema run_migrate migrate script_names insert_name migrate_files
    migrate_file read_file lookup insert migrate_progress_schema max_version raise_versions update
migrates_one = refl

run_migrate_once_example :
    AreApplied exec lib.sha256_hex
      (record { name = "001.sql"; is_dir = false; content = some "create" } ∷ [])
      (script_names (record { name = "001.sql"; is_dir = false; content = some "create" } ∷ []))
      migrated
    × (find (λ r. not (is_current r)) migrated.state.progress ≡ none)
    × (run lib exec migrates migrated ≡ (finished, migrated))
run_migrate_once_example =
    run_migrate_once lib exec migrates
      (record { name = "001.sql"; is_dir = false; content = some "create" } ∷ []) stored migrated
      refl refl refl refl refl migrates_one

-- A new account, and its login.
abbrev seeds : World
seeds = world ("seed" ∷ "Bob" ∷ [])

abbrev with_bob : Schema Db
with_bob = record stored {
  state = record fresh {
    players =
        fresh.players
        ++ record { player_id = id_of bytes; username = "Bob"; password_hash = "secret" } ∷ [];
  };
}

seeds_bob : run lib exec seeds stored ≡ (finished, with_bob)
unfolding run opens is_schema run_seed upsert_player upsert_row find id_of
seeds_bob = refl

hash_matches :
    (password hash : String)
    → seeds.create_hash password ≡ some hash
    → lib.password_matches password hash ≡ true
hash_matches password hash e = ground (arith, e, text_refl password)

no_sessions : session_of "token-2" fresh ≡ none
unfolding find
no_sessions = refl

seed_then_login_example :
    (id : String) × (db : Db) × (login lib up up "Bob" "secret" "token-2" 10 with_bob.state
      ≡ (ok ("token-2", id), db))
    × (auth lib up "token-2" 10 db ≡ (ok (record { player_id = id; token_hash = "token-2" }), db))
seed_then_login_example =
    seed_then_login lib exec seeds stored with_bob "Bob" "token-2" 10 refl hash_matches no_sessions
      seeds_bob
