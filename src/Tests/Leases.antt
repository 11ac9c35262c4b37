-- ===== src/Tests/Leases.antt =====
-- Leases and fencing on one player.
use g_server.Common.{
  lookup, arith, ◌+◌, ◌≤◌, ◌<◌, ◌≡◌, refl, ◌≢◌, true, none, some, [], ◌∷◌, number_key, text_key,
  find, update, remove,
}
use g_server.Domain.{ProgressCommit, SessionLease, OperationResult, ProgressSnapshot}
use g_server.Tests.Sample.{coin, lib, fresh, playing, ann_lease, pickup, equip, quest}
use g_server.Store.{Db, ok, up, player_exists}
use g_server.Store.Lease.{acquire_session, release_session, lease_of, new_progress}
use g_server.Store.Lease.Grant.{acquire_free, granted, current_token}
use g_server.Store.Lease.Use.{lease_serves, IsFit, answered}
use g_server.Store.Version.{progress_of}
use g_server.Store.Operation.{operation_of}
use g_server.Store.Progress.Effect.{picked_db}
use g_server.Store.Lease.Fencing.{granted_tokens_grow, release_restarts_tokens, here}
use g_server.Store.Progress.{commit_progress}
use g_server.Store.Equipment.{commit_equipment}
use g_server.Store.Quest.{commit_quest}
use g_server.Store.Fencing.{superseded_writes_nothing}

-- The lease of another room, taken when ann's has run out.
abbrev second : SessionLease
second = granted "ann" "room-b" 31000000 2

abbrev taken : Db
taken = record playing { leases = second ∷ [] }

takes_over : acquire_session up "ann" "room-b" 31000000 playing ≡ (ok second, taken)
unfolding acquire_session find update
takes_over = refl

ann_holds : lease_of "ann" playing ≡ some ann_lease
unfolding find
ann_holds = refl

abbrev first : SessionLease
first = granted "ann" "g0-room" 0 1

abbrev entered : Db
entered = record fresh { progress = new_progress "ann" ∷ []; leases = first ∷ [] }

abbrev left : Db
left = record entered { leases = [] }

enters : acquire_session up "ann" "g0-room" 0 fresh ≡ (ok first, entered)
unfolding acquire_session find update
enters = refl

leaves : release_session up first entered ≡ (ok tt, left)
unfolding release_session remove
leaves = refl

abbrev first_again : SessionLease
first_again = granted "ann" "g0-room" 50 1

enters_again :
    acquire_session up "ann" "g0-room" 50 left
    ≡ (ok first_again, record left { leases = first_again ∷ [] })
unfolding acquire_session find update
enters_again = refl

never_played : lease_of "ann" fresh ≡ none
unfolding find
never_played = refl

known : player_exists "ann" fresh ≡ true
unfolding find
known = refl

acquire_free_example :
    (acquire_session up "ann" "g0-room" 0 fresh).0
    ≡ ok (granted "ann" "g0-room" 0 (current_token "ann" fresh + 1))
unfolding find
acquire_free_example = acquire_free "ann" "g0-room" 0 fresh known (λ l h. cc h)

release_restarts_tokens_example :
    (first_again.fencing_token ≡ first.fencing_token) × (first_again.room_id ≡ first.room_id)
release_restarts_tokens_example =
    release_restarts_tokens "ann" "g0-room" 0 50 fresh entered left
      (record left { leases = first_again ∷ [] }) {l = first} {l' = first_again} never_played enters
      leaves enters_again

-- Room b takes the place of the first room, whose lease has run out.
abbrev first_stale : Db
first_stale = record entered { leases = second ∷ [] }

superseded : acquire_session up "ann" "room-b" 31000000 entered ≡ (ok second, first_stale)
unfolding acquire_session find update
superseded = refl

granted_tokens_grow_example :
    (first.fencing_token < second.fencing_token)
    × (second.fencing_token ≤ current_token "ann" first_stale)
granted_tokens_grow_example =
    granted_tokens_grow "ann" "g0-room" "room-b" 0 31000000 fresh entered entered first_stale
      first_stale {l = first} {l' = second} enters here superseded here

abbrev no_answer : OperationResult
no_answer = record {
  operation_id = "op-1";
  status = "succeeded";
  revision = 1;
  payload = "coin";
  inventory = [];
}

abbrev no_snapshot : ProgressSnapshot
no_snapshot = record {
  player_id = "ann";
  schema_version = 2;
  revision = 1;
  inventory = [];
  equipment = [];
  unlocks = [];
  quests = [];
}

superseded_writes_nothing_example :
    ((commit_progress lib up pickup 31000001 first_stale).0 ≢ ok no_answer)
    × ((commit_equipment lib up equip 31000001 first_stale).0 ≢ ok no_snapshot)
    × ((commit_quest lib up up quest 31000001 first_stale).0 ≢ ok no_snapshot)
unfolding find
superseded_writes_nothing_example =
    superseded_writes_nothing lib "ann" "g0-room" "room-b" 0 31000000 31000001 fresh entered entered
      first_stale first_stale {l = first} {l' = second} pickup equip quest no_answer no_snapshot
      enters here superseded here (refl, refl, refl) (refl, refl, refl) (refl, refl, refl)

abbrev first_pickup : ProgressCommit
first_pickup = record pickup { expected_revision = 0 }

first_pickup-IsFit : IsFit lib first (new_progress "ann") coin [] first_pickup
first_pickup-IsFit = record {
  player = refl;
  room = refl;
  token = refl;
  revision = refl;
  read = refl;
  fields_lem = refl;
  named = refl;
  short = omega arith;
  single = refl;
  known = omega arith;
  small = unfold lookup in omega arith;
  early = omega arith;
}

ann_enters : progress_of "ann" entered ≡ some (new_progress "ann")
unfolding find
ann_enters = refl

nothing_recorded : operation_of "ann" "op-1" entered ≡ none
unfolding find
nothing_recorded = refl

lease_serves_example : commit_progress lib up first_pickup 10 entered ≡ (
  ok (answered first_pickup coin (new_progress "ann")),
  picked_db lib first_pickup coin (new_progress "ann") [] entered,
)
lease_serves_example =
    lease_serves lib "ann" "g0-room" 0 10 fresh entered {l = first} (new_progress "ann") coin []
      first_pickup enters first_pickup-IsFit ann_enters nothing_recorded (omega arith)
