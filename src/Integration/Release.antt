-- ===== src/Integration/Release.antt =====
-- What a run of the integration test releases, and when it prints that it has passed.
use g_server.Common.{List, [], ◌∷◌, String, ◌≡◌, refl, ◌∙◌, arith}
use g_server.Libs.{Libs}
use g_server.Integration.Script.{World, Run}
use g_server.Integration.Setup.{prepare, serve}
use g_server.Integration.Modes.{wait_logs, one_client, two_equipments, two_reconnects, restart}
use g_server.Integration.Race.{race, joined, late_join, smoke_test}
use g_server.Integration.Main.{chosen_test, body, run_integration}
use g_server.Integration.Keeps.{
  acquired, released, prints, has_passed, Keeps, Reports, keeping, reporting, Keeps-done,
  Keeps-perform, Keeps-then, Reports-if,
}

module _ (lib : Libs) (w : World) where
  prepare-Keeps : Keeps (prepare lib w)
  unfolding prepare
  prepare-Keeps = search keeping depth 40

  serve-Keeps : Keeps (serve lib w)
  unfolding serve
  serve-Keeps = search keeping depth 40

  wait_logs-Keeps : (name : String) (markers : List String) → Keeps (wait_logs w name markers)
  unfolding wait_logs
  wait_logs-Keeps name [] = Keeps-done
  wait_logs-Keeps name (marker ∷ markers) =
      Keeps-then (Keeps-perform w _ refl refl) (wait_logs-Keeps name markers)

  one_client-Reports :
      (script : String) (markers : List String) (marker line : String)
      → Reports (one_client w script markers marker line)
  unfolding one_client
  one_client-Reports script markers marker line =
      search (reporting, keeping, wait_logs-Keeps) depth 40

  two_equipments-Reports : Reports (two_equipments w)
  unfolding two_equipments
  two_equipments-Reports = search (reporting, keeping) depth 40

  two_reconnects-Reports : Reports (two_reconnects w)
  unfolding two_reconnects
  two_reconnects-Reports = search (reporting, keeping) depth 40

  restart-Reports : Reports (restart w)
  unfolding restart
  restart-Reports = search (reporting, keeping) depth 40

  race-Reports : Reports (race w)
  unfolding race
  race-Reports = search (reporting, keeping) depth 40

  joined-Keeps : (name : String) → Keeps (joined w name)
  unfolding joined
  joined-Keeps name = search keeping depth 40

  late_join-Reports : Reports (late_join w)
  unfolding late_join
  late_join-Reports = search (reporting, keeping, joined-Keeps) depth 40

  smoke_test-Reports : Reports (smoke_test w)
  unfolding smoke_test
  smoke_test-Reports = search (reporting, keeping, race-Reports, late_join-Reports) depth 40

  chosen_test-Reports : Reports (chosen_test lib w)
  unfolding chosen_test
  chosen_test-Reports =
      search
        (
          Reports-if, one_client-Reports, two_equipments-Reports, two_reconnects-Reports,
          restart-Reports, smoke_test-Reports,
        )
        depth 40

  body-Reports : Reports (body lib w)
  unfolding body
  body-Reports = search (reporting, prepare-Keeps, serve-Keeps, chosen_test-Reports) depth 40

  -- However a run of the integration test ends, its deferred calls release what it has acquired,
  -- the latest first: the directory, the pool and every process that it has started. It prints one
  -- line of success when it passes, and none when it fails.
  pub run_integration-releases :
      (released (run_integration lib w).cleanup ≡ acquired (run_integration lib w).trace)
      × (prints (run_integration lib w).trace ≡ has_passed (run_integration lib w).outcome)
  unfolding run_integration
  run_integration-releases =
      let start_run : Run = record { trace = []; deferred = [] } in
      (body-Reports.paired start_run refl, body-Reports.reported start_run ∙ omega arith)
