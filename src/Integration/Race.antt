-- ===== src/Integration/Race.antt =====
-- Backend/cmd/g1integration/main.go: the two tests without a variable of their own, the race for one
-- pickup and the late join.
use Prim.Native.String.{◌++◌ as append}
use g_server.Common.{
  Bool, false, not, ◌||◌, ◌&&◌, List, [], ◌∷◌, String, ◌==◌, number_key, text_key, if◌then◌else◌,
}
use g_server.Runner.{trim_space}
use g_server.Integration.Script.{
  World, Script, Event, start, wait_log, await_process, read_coins, read_tickets, wait_files,
  read_file, pause, print, fail_if, trace_of, perform, note, join, contains, ◌>>=◌, ◌>>◌,
}
use g_server.Integration.Setup.{start_process}
use g_server.Integration.Modes.{in_barrier, barrier}

-- The processes that have been started.
abbrev pub started_names : List Event → List String
started_names [] = []
started_names (start name args env ∷ trace) = name ∷ started_names trace
started_names (e ∷ trace) = started_names trace

abbrev pub has_error : String → Bool
has_error log =
    contains log "ERROR:" || contains log "HEARTBEAT_FAILED" || contains log "AUTH_REJECTED"

unfoldable pub any_error : (String → String) → List String → Bool
unfolding contains
any_error log_of [] = false
any_error log_of (name ∷ names) = has_error (log_of name) || any_error log_of names

module _ (w : World) where
  abbrev pub smoke : List String
  smoke = "godot" ∷ "--headless" ∷ "--path" ∷ join w.root "3D_App" ∷ "--" ∷ "--smoke-exit" ∷ []

  abbrev pub status_of : String → String
  unfolding trim_space
  status_of role = trim_space (w.content_of (in_barrier w role))

  abbrev pub winner : String
  winner = if status_of "/A" == "succeeded" then "A" else "B"

  abbrev pub winner_user : String
  winner_user = if winner == "B" then "g1-b" else "g1-a"

  unfoldable pub race : Script (Unit {0})
  race = do
    start_process w "B" smoke
        ("G0_USERNAME=g1-b" ∷ "G1_CLIENT_ROLE=B" ∷ "G3_INTEGRATION=1" ∷ barrier w)
    perform w (wait_log "B" "self=true")
    perform w (wait_files (in_barrier w "/A") (in_barrier w "/B"))
    perform w (read_file (in_barrier w "/A"))
    perform w (read_file (in_barrier w "/B"))
    fail_if
        (status_of "/A" == status_of "/B"
          || (not (status_of "/A" == "succeeded") && not (status_of "/B" == "succeeded")))
        "invalid G3 statuses"
    perform w (wait_log winner "G3_INVENTORY_SNAPSHOT")
    perform w (read_coins winner_user)
    fail_if (not (w.coins_of winner_user == 1)) "G3 inventory amount"
    note (print "G3_INTEGRATION_PASS")

  -- The client has ended, and its log has both markers.
  unfoldable pub joined : String → Script (Unit {0})
  joined name = do
    perform w (await_process name)
    log ← trace_of (λ t. w.log_of t name)
    fail_if (not (contains log "self=true")) "client missing self=true"
    fail_if (not (contains log "self=false")) "client missing self=false"

  unfoldable pub late_join : Script (Unit {0})
  late_join = do
    perform w (pause 17)
    start_process w "B" smoke ("G0_USERNAME=g1-b" ∷ "G1_CLIENT_ROLE=B" ∷ [])
    joined "A"
    joined "B"
    perform w (wait_log "gameserver" "G1 player_left")
    perform w read_tickets
    fail_if (not (w.redeemed == 2) || not (w.players == 2))
        "expected two independently redeemed tickets"
    errors ← trace_of (λ t. any_error (w.log_of t) (started_names t))
    fail_if errors "runtime error"
    note (print "G1_INTEGRATION_PASS")

  unfoldable pub smoke_test : Script (Unit {0})
  smoke_test = do
    start_process w "A" smoke (
        "G0_USERNAME=g1-a"
        ∷ "G1_CLIENT_ROLE=A"
        ∷ append "G3_INTEGRATION=" (w.getenv "G3_INTEGRATION")
        ∷ barrier w)
    perform w (wait_log "A" "self=true")
    if w.getenv "G3_INTEGRATION" == "1" then race else late_join
