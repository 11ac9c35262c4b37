-- ===== src/Tests/Integration.antt =====
-- A run of the test of the equipment, which passes, and one whose client never starts.
use g_server.Common.{
  Option, none, some, List, [], ◌∷◌, String, ◌≡◌, refl, ◌==◌, text_key, if◌then◌else◌, ◌||◌,
}
use g_server.Tests.Sample.{lib}
use g_server.Integration.Script.{
  World, Event, start, kill, print_logs, close_pool, remove_temp, passed, fail_if, perform, acquire,
  note,
}
use g_server.Usecase.Service.{config_hash_for}
use g_server.Integration.Setup.{prepare, serve, start_process, config_hash}
use g_server.Integration.Modes.{one_client, wait_logs}
use g_server.Integration.Main.{run_integration, chosen_test}
use g_server.Integration.Keeps.{acquired, released, prints, has_passed}
use g_server.Integration.Release.{run_integration-releases}

abbrev switches : String → String
switches name =
    if name == "TEST_DB_INTEGRATION" || name == "G1_EQUIPMENT"
    then "1"
    else if name == "TEST_DB_SCHEMA"
    then "test_1"
    else ""

abbrev nothing_fails : List Event → Event → Option String
nothing_fails trace e = none

abbrev no_client : List Event → Event → Option String
no_client trace (start name args env) = if name == "A" then some "no godot" else none
no_client trace e = none

abbrev world : World
world = record {
  getenv = switches;
  fails = nothing_fails;
  log_of = λ trace name. "";
  root = "/srv/G_Server";
  temp = "/tmp/g1-integration-1";
  port = "8000";
  room_port = "7000";
  room = record {
    host = "127.0.0.1";
    port = "7000";
    protocol = 1;
    content = "g0-empty-v1";
    config = "json";
    capacity = 8;
    generation = 1;
    status = "ready";
  };
  weapon_of = λ user. "";
  coins_of = λ user. 0;
  content_of = λ path. "";
  redeemed = 0;
  players = 0;
}

run_integration-releases_example :
    (released (run_integration lib world).cleanup ≡ acquired (run_integration lib world).trace)
    × (prints (run_integration lib world).trace ≡ has_passed (run_integration lib world).outcome)
run_integration-releases_example = run_integration-releases lib world

passes : (run_integration lib world).outcome ≡ passed tt
unfolding run_integration prepare fail_if perform acquire serve start_process config_hash
    config_hash_for chosen_test one_client wait_logs note
passes = refl

cleans_up :
    (run_integration lib world).cleanup
    ≡ kill "A" ∷ kill "gameserver" ∷ kill "backend" ∷ print_logs ∷ close_pool ∷ remove_temp ∷ []
unfolding run_integration prepare fail_if perform acquire serve start_process config_hash
    config_hash_for chosen_test one_client wait_logs note
cleans_up = refl

cleans_up_early :
    (run_integration lib (record world { fails = no_client })).cleanup
    ≡ kill "gameserver" ∷ kill "backend" ∷ print_logs ∷ close_pool ∷ remove_temp ∷ []
unfolding run_integration prepare fail_if perform acquire serve start_process config_hash
    config_hash_for chosen_test one_client wait_logs note
cleans_up_early = refl
