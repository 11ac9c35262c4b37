-- ===== src/Integration/Modes.antt =====
-- Backend/cmd/g1integration/main.go: the tests of one or two clients that an environment variable
-- chooses.
use Prim.Native.String.{◌++◌ as append}
use g_server.Common.{not, ◌||◌, List, [], ◌∷◌, ◌++◌, String, ◌==◌, text_key, ltb}
use g_server.Integration.Script.{
  World, Script, wait_log, await_process, read_weapon, wait_files, write_file, kill, print, fail_if,
  trace_of, perform, note, join, done, count_from, ◌>>=◌, ◌>>◌,
}
use g_server.Integration.Setup.{start_process, server_args}

module _ (w : World) where
  abbrev pub driver : String → List String
  driver script =
      "godot"
      ∷ "--headless"
      ∷ "--path"
      ∷ join w.root "3D_App"
      ∷ "--script"
      ∷ append "res://Tests/Godot/" script
      ∷ []

  abbrev pub user_a : List String
  user_a = "G0_USERNAME=g1-a" ∷ "G1_CLIENT_ROLE=A" ∷ "G3_INTEGRATION=0" ∷ []

  abbrev pub user_b : List String
  user_b = "G0_USERNAME=g1-b" ∷ "G1_CLIENT_ROLE=B" ∷ "G3_INTEGRATION=0" ∷ []

  unfoldable pub wait_logs : String → List String → Script (Unit {0})
  wait_logs name [] = done
  wait_logs name (marker ∷ markers) = perform w (wait_log name marker) >> wait_logs name markers

  -- One client, what is waited for in the server's log and in its own, and its end.
  unfoldable pub one_client : String → List String → String → String → Script (Unit {0})
  one_client script server_markers marker line = do
    start_process w "A" (driver script) user_a
    wait_logs "gameserver" server_markers
    perform w (wait_log "A" marker)
    perform w (await_process "A")
    note (print line)

  unfoldable pub two_equipments : Script (Unit {0})
  two_equipments = do
    start_process w "A" (driver "g1_equipment_authority_driver.gd") (user_a ++ "G1_EQ_ROLE=A" ∷ [])
    perform w (wait_log "A" "G1_EQ_A_READY")
    start_process w "B" (driver "g1_equipment_authority_driver.gd") (user_b ++ "G1_EQ_ROLE=B" ∷ [])
    perform w (wait_log "B" "G1_EQ_B_PASS")
    perform w (read_weapon "g1-a")
    perform w (read_weapon "g1-b")
    fail_if (not (w.weapon_of "g1-a" == "coin") || not (w.weapon_of "g1-b" == ""))
        "equipment authority mismatch"
    perform w (await_process "A")
    perform w (await_process "B")
    note (print "G1_EQUIPMENT_TWO_INTEGRATION_PASS")

  abbrev pub barrier : List String
  barrier = append "G3_BARRIER_DIR=" (w.getenv "G3_BARRIER_DIR") ∷ []

  abbrev pub in_barrier : String → String
  in_barrier name = append (w.getenv "G3_BARRIER_DIR") name

  unfoldable pub two_reconnects : Script (Unit {0})
  two_reconnects = do
    start_process w "A" (driver "g1_multi_reconnect_driver.gd") (user_a ++ barrier)
    start_process w "B" (driver "g1_multi_reconnect_driver.gd") (user_b ++ barrier)
    perform w (wait_files (in_barrier "/A_ready") (in_barrier "/B_ready"))
    perform w (write_file (in_barrier "/go"))
    perform w (wait_log "A" "G1_MULTI_RECONNECT_PASS")
    perform w (wait_log "B" "G1_MULTI_RECONNECT_PASS")
    log ← trace_of (λ t. w.log_of t "gameserver")
    fail_if (ltb (count_from 0 log "G1 player_reconnected") 2) "expected two concurrent reconnects"
    perform w (await_process "A")
    perform w (await_process "B")
    note (print "G1_MULTI_RECONNECT_INTEGRATION_PASS")

  -- The game server is killed and another one started, which knows no token of the first.
  unfoldable pub restart : Script (Unit {0})
  restart = do
    start_process w "A" (driver "g1_restart_token_driver.gd") user_a
    perform w (wait_log "gameserver" "G1 player_reconnectable")
    note (kill "gameserver")
    start_process w "gameserver2" (server_args w) []
    perform w (wait_log "gameserver2" "G0_SERVER_LISTENING")
    perform w (wait_log "gameserver2" "G0_AUTH_REJECTED")
    perform w (wait_log "A" "G1_RESTART_TOKEN_PASS")
    perform w (await_process "A")
    note (print "G1_RESTART_INTEGRATION_PASS")
