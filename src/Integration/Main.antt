-- ===== src/Integration/Main.antt =====
-- Backend/cmd/g1integration/main.go: run, with its deferred calls.
use g_server.Common.{List, [], ◌∷◌, ◌==◌, text_key, if◌then◌else◌}
use g_server.Libs.{Libs}
use g_server.Integration.Script.{World, Script, Event, Run, Outcome, ◌>>◌}
use g_server.Integration.Setup.{prepare, serve}
use g_server.Integration.Modes.{one_client, two_equipments, two_reconnects, restart}
use g_server.Integration.Race.{smoke_test}

-- What a run has come to: its error, the events that have worked, the latest first, and the deferred
-- calls in the order in which they run at the end.
pub record Finished : Type 0 where
  pub outcome : Outcome (Unit {0})
  pub trace : List Event
  pub cleanup : List Event

abbrev pub finished : Outcome (Unit {0}) × Run → Finished
finished (o, r) = record { outcome = o; trace = r.trace; cleanup = r.deferred }

module _ (lib : Libs) (w : World) where
  unfoldable pub chosen_test : Script (Unit {0})
  chosen_test =
      if w.getenv "G1_EQUIPMENT" == "1"
      then one_client w "g1_equipment_driver.gd" [] "G1_EQUIPMENT_PASS"
          "G1_EQUIPMENT_INTEGRATION_PASS"
      else if w.getenv "G1_EQUIPMENT_TWO" == "1"
      then two_equipments w
      else if w.getenv "G1_PICKUP_RANGE" == "1"
      then one_client w "g1_pickup_range_driver.gd" [] "G1_PICKUP_RANGE_PASS"
          "G1_PICKUP_RANGE_INTEGRATION_PASS"
      else if w.getenv "G1_QUEST" == "1"
      then one_client w "g1_quest_driver.gd" [] "G1_QUEST_PASS" "G1_QUEST_INTEGRATION_PASS"
      else if w.getenv "G1_COMBAT_DAMAGE" == "1"
      then one_client w "g1_combat_damage_driver.gd" [] "G1_COMBAT_DAMAGE_PASS"
          "G1_COMBAT_DAMAGE_INTEGRATION_PASS"
      else if w.getenv "G1_MULTI_RECONNECT" == "1"
      then two_reconnects w
      else if w.getenv "G1_RESTART" == "1"
      then restart w
      else if w.getenv "G1_GRACE_EXPIRE" == "1"
      then one_client w "g1_grace_expiry_driver.gd"
          ("G1 player_reconnectable" ∷ "G1 player_grace_expired" ∷ []) "G1_GRACE_EXPIRY_PASS"
          "G1_GRACE_EXPIRE_INTEGRATION_PASS"
      else if w.getenv "G1_RECONNECT" == "1"
      then one_client w "g1_reconnect_driver.gd"
          ("G1 player_reconnectable" ∷ "G1 player_reconnected" ∷ []) "G1_RECONNECT_PASS"
          "G1_RECONNECT_INTEGRATION_PASS"
      else smoke_test w

  unfoldable pub body : Script (Unit {0})
  body = do prepare lib w; serve lib w; chosen_test

  unfoldable pub run_integration : Finished
  unfolding body
  run_integration = finished (body (record { trace = []; deferred = [] }))
