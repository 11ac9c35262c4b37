-- ===== src/Integration/Setup.antt =====
-- Backend/cmd/g1integration/main.go: from the start of run to the check of the registered room.
use Prim.Native.String.{◌++◌ as append}
use g_server.Common.{
  Bool, not, ◌||◌, List, [], ◌∷◌, ◌++◌, String, ◌==◌, number_key, text_key, if◌then◌else◌,
}
use g_server.Domain.{preset, content}
use g_server.Libs.{Libs}
use g_server.Process.Config.{env}
use g_server.Usecase.Service.{config_hash_for}
use g_server.Integration.Script.{
  World, Script, Registered, find_root, make_temp, open_pool, wait_database, migrate, build, listen,
  seed, start, wait_ready, wait_log, read_room, kill, print_logs, close_pool, remove_temp, fail_if,
  later, perform, acquire, join, ◌>>◌,
}

unfoldable pub config_hash : Libs → String
config_hash lib = config_hash_for lib preset content

module _ (w : World) where
  abbrev pub binary : String
  binary = join w.temp "backend"

  abbrev pub base : String
  base = append "http://127.0.0.1:" w.port

  abbrev pub wanted_preset : String
  wanted_preset = env w.getenv "ROOM_PRESET" "exploration"

  -- What is added to the environment of the processes.
  abbrev pub settings : List String
  settings =
      append "ROOM_PRESET=" wanted_preset
      ∷ append "TEST_DB_SCHEMA=" (w.getenv "TEST_DB_SCHEMA")
      ∷ "ALLOW_LOOPBACK_HTTP=1"
      ∷ "G0_LOOPBACK_TEST=1"
      ∷ append "G0_BACKEND_URL=" base
      ∷ append "BACKEND_PORT=" w.port
      ∷ append "ROOM_PORT=" w.room_port
      ∷ "ROOM_ID=g0-room"
      ∷ "ROOM_GENERATION=1"
      ∷ "G0_TEST_PASSWORD=g1-local-test-password"
      ∷ "G0_PASSWORD=g1-local-test-password"
      ∷ []

  -- A process is started, and `defer` of its kill.
  unfoldable pub start_process : String → List String → List String → Script (Unit {0})
  start_process name args extra = acquire w (start name args (settings ++ extra)) (kill name)

  abbrev pub server_args : List String
  server_args =
      "godot" ∷ "--headless" ∷ "--path" ∷ join w.root "Server/GameServer" ∷ "--" ∷ "--server" ∷ []

  abbrev pub grace : List String
  grace = if w.getenv "G1_GRACE_EXPIRE" == "1" then "G1_GRACE_MS=1500" ∷ [] else []

module _ (lib : Libs) (w : World) where
  abbrev pub expected_content : String
  expected_content = if wanted_preset w == "coop_combat" then "g4-coop-combat-v1" else "g0-empty-v1"

  abbrev pub expected_config : String
  expected_config =
      if wanted_preset w == "coop_combat"
      then config_hash_for lib "coop_combat" "g4-coop-combat-v1"
      else config_hash lib

  abbrev pub is_mismatch : Registered → Bool
  is_mismatch r =
      not (r.host == "127.0.0.1")
      || not (r.port == w.room_port)
      || not (r.protocol == 1)
      || not (r.content == expected_content)
      || not (r.config == expected_config)
      || not (r.capacity == 8)
      || not (r.generation == 1)
      || not (r.status == "ready")

  unfoldable pub prepare : Script (Unit {0})
  prepare = do
    fail_if (not (w.getenv "TEST_DB_INTEGRATION" == "1"))
        "run: go run ./cmd/testdb go run ./cmd/g1integration"
    fail_if (w.getenv "TEST_DB_SCHEMA" == "") "TEST_DB_SCHEMA is required"
    perform w find_root
    acquire w make_temp remove_temp
    perform w (build (binary w))
    acquire w open_pool close_pool
    perform w wait_database
    perform w migrate
    perform w (listen "tcp")
    perform w (listen "udp")
    perform w (seed (binary w) "g1-a" (settings w))
    perform w (seed (binary w) "g1-b" (settings w))

  unfoldable pub serve : Script (Unit {0})
  serve = do
    later print_logs
    start_process w "backend" (binary w ∷ []) []
    perform w (wait_ready (append (base w) "/health/ready"))
    start_process w "gameserver" (server_args w) (grace w)
    perform w (wait_log "gameserver" "G0_SERVER_LISTENING")
    perform w read_room
    fail_if (is_mismatch w.room) "registered fields mismatch"
