-- ===== src/Process/Commands.antt =====
-- Backend/main.go: run.
use Prim.Native.Char.{code}
use Prim.Native.String.{len}
use g_server.Common.{
  ℕ, Bool, true, not, ◌&&◌, ◌||◌, Option, none, some, List, [], ◌∷◌, String, leb, ltb, ◌==◌,
  number_key, text_key, if◌then◌else◌,
}
use g_server.Domain.{room}
use g_server.Libs.{Libs}
use g_server.Store.{Db, Link, Result, ok, err}
use g_server.Store.Version.{migrate_progress_schema}
use g_server.Store.Migration.{Entry, Schema, Outcome, done, failed, migrate}
use g_server.Process.Config.{
  Environment, env, text_or, atoi, port_of, Config, config_for, no_certificate,
}
use g_server.Process.Seed.{Bytes, id_of, upsert_player}

-- How run ends: with a message, with the work done, or with a server that serves.
pub data Ending : Type 0 where
  stopped : String → Ending
  finished : Ending
  serving : Config → Ending

-- The program's surroundings: the arguments after its name, the environment, whether pgx accepts the
-- URL, the directories of scripts, and how each call of the database is served.
pub record World : Type 0 where
  pub args : List String
  pub getenv : Environment
  pub accepts_url : String → Bool
  pub read_dir : String → Option (List Entry)
  pub link : ℕ → Link
  pub create_hash : String → Option String
  pub random : Option Bytes

abbrev pub command_of : List String → String
command_of [] = "serve"
command_of (cmd ∷ rest) = cmd

abbrev pub is_command : String → Bool
is_command cmd = cmd == "serve" || cmd == "migrate" || cmd == "seed"

abbrev pub is_schema_char : ℕ → Bool
is_schema_char c = (leb b'a' c && leb c b'z') || (leb b'0' c && leb c b'9') || c == b'_'

unfoldable pub is_schema : String → Bool
is_schema String.[] = true
is_schema (String.◌∷◌ c s) = is_schema_char (code c) && is_schema s

-- `infra.Open`; every character of the empty schema is valid.
unfoldable pub opens : World → Bool
unfolding is_schema
opens w = w.accepts_url (w.getenv "DATABASE_URL") && is_schema (w.getenv "TEST_DB_SCHEMA")

abbrev pub Run : Type 0
Run = Schema Db → Ending × Schema Db

abbrev pub stop : String → Run
stop message db = (stopped message, db)

abbrev pub migrations_dir : World → String
migrations_dir w = text_or (w.getenv "MIGRATIONS_DIR") "migrations"

abbrev pub with_state : Schema Db → Db → Schema Db
with_state s db = record s { state = db }

abbrev pub settled : String → Schema Db → Result (Unit {0}) × Db → Ending × Schema Db
settled message s (ok x, db) = (finished, with_state s db)
settled message s (err e, db) = (stopped message, with_state s db)

-- Not more than two arguments, the second a name of 1 to 64 bytes.
abbrev pub name_of : List String → Option String
name_of (cmd ∷ name ∷ []) = if ltb (len name) 1 || ltb 64 (len name) then none else some name
name_of _ = none

abbrev pub account_of : List String → String → Option String
account_of args password =
    if ltb (len password) 1 || ltb 256 (len password) then none else name_of args

module _ (lib : Libs) (exec : String → Db → Option Db) (w : World) where
  abbrev pub then_progress : Outcome (Unit {0}) × Schema Db → Ending × Schema Db
  then_progress (failed e, s) = (stopped "migration failed", s)
  then_progress (done x, s) =
      settled "progress schema migration failed" s
        (migrate_progress_schema (w.link 1) (w.link 2) s.state)

  unfoldable pub run_migrate : Run
  run_migrate s =
      then_progress (migrate exec lib.sha256_hex (w.link 0) (w.read_dir (migrations_dir w)) s)

  abbrev pub provision : String → Option String → Option Bytes → Run
  provision username none b s = (stopped "password hashing failed", s)
  provision username (some hash) none s = (stopped "random generation failed", s)
  provision username (some hash) (some b) s =
      settled "seed failed" s (upsert_player (w.link 0) (id_of b) username hash s.state)

  unfoldable pub run_seed : Run
  run_seed s = elim (account_of w.args (w.getenv "G0_TEST_PASSWORD")) [
    | none ↦ stop "seed requires USERNAME and G0_TEST_PASSWORD (1..256 bytes)" s
    | some username ↦ provision username (w.create_hash (w.getenv "G0_TEST_PASSWORD")) w.random s
  ]

  unfoldable pub run_serve : Run
  run_serve s =
      if ltb (len (w.getenv "ROOM_SERVICE_TOKEN")) 32
      then stop "ROOM_SERVICE_TOKEN must contain at least 32 characters" s
      else if not (w.getenv "ROOM_ID" == "") && not (w.getenv "ROOM_ID" == room)
      then stop "ROOM_ID must be g0-room" s
      else elim (port_of (atoi (env w.getenv "ROOM_PORT" "7000"))) [
        | none ↦ stop "ROOM_PORT invalid" s
        | some port ↦
            if no_certificate w.getenv
            then stop "TLS_CERT_FILE and TLS_KEY_FILE required unless ALLOW_LOOPBACK_HTTP=1" s
            else (serving (config_for w.getenv port), s)
      ]

  unfoldable pub run : Run
  unfolding opens run_migrate run_seed run_serve
  run s =
      if not (is_command (command_of w.args))
      then stop "usage: backend [serve|migrate|seed USERNAME]" s
      else if w.getenv "DATABASE_URL" == ""
      then stop "DATABASE_URL is required" s
      else if not (opens w)
      then stop "database configuration invalid" s
      else if command_of w.args == "migrate"
      then run_migrate s
      else if command_of w.args == "seed"
      then run_seed s
      else run_serve s
