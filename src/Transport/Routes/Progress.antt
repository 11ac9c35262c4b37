-- ===== src/Transport/Routes/Progress.antt =====
-- Backend/transport/http.go: the routes below /v1/internal/progress/.
use g_server.Store.{rejected}
use g_server.Common.{
  ℕ, ℤ, pos, negsuc, ◌+◌, Bool, false, not, ◌&&◌, [], ◌∷◌, String, leb, ltb, ◌==◌, number_key,
  text_key, if◌then◌else◌, List,
}
use Prim.Native.String.{len}
use g_server.Transport.Message.{
  Body, LeaseRequest, CommitRequest, PlayerRequest, EquipmentRequest, QuestRequest, db_error,
  object, Decoder, Response, Context, failure, Exchange, when_valid, answer, response, lease,
  operation, progress, quests,
}
use g_server.Transport.Credential.{text_within}
use g_server.Transport.Number.{Float, integer, int64}
use g_server.Domain.{
  ProgressQuery, SessionLease, ProgressCommit, EquipmentCommit, QuestCommit, text,
}
use g_server.Libs.{Libs}
use g_server.Store.{Error, max_bigint}
use g_server.Store.Lease.{release_session, acquire_session, renew_session}
use g_server.Store.Progress.{commit_progress}
use g_server.Store.Operation.{query_progress, get_progress_snapshot, get_quest_snapshot}
use g_server.Store.Equipment.{commit_equipment}
use g_server.Usecase.Service.{service_commit_quest}

abbrev pub status_ok : Body
status_ok = object (("status", text "ok") ∷ [])

abbrev pub named : String → String → Bool
named player room = text_within player 64 && text_within room 128

abbrev is_positive : ℤ → Bool
is_positive (pos n) = not (ltb n 1)
is_positive (negsuc n) = false

-- A token is a whole number from 1 on.
abbrev pub is_token : Float → Bool
is_token x = integer x && is_positive (int64 x)

-- A number as the tables have it: a negative one, which no row has, is one that no column holds.
abbrev pub column : ℤ → ℕ
column (pos n) = n
column (negsuc n) = max_bigint + 1 + n

abbrev pub valid_lease : LeaseRequest → Bool
valid_lease x = named x.player_id x.room_id && is_token x.fencing_token

abbrev pub lease_of_request : LeaseRequest → SessionLease
lease_of_request x = record {
  player_id = x.player_id;
  room_id = x.room_id;
  fencing_token = column (int64 x.fencing_token);
  lease_expires_at = 0;
}

abbrev pub valid_commit : CommitRequest → Bool
valid_commit x =
    named x.player_id x.room_id
    && text_within x.operation_id 128
    && is_token x.fencing_token
    && integer x.expected_revision
    && not (len x.payload == 0)
    && leb (len x.payload) 4096

abbrev pub commit_of_request : CommitRequest → ProgressCommit
commit_of_request x = record {
  player_id = x.player_id;
  room_id = x.room_id;
  fencing_token = column (int64 x.fencing_token);
  expected_revision = column (int64 x.expected_revision);
  operation_id = x.operation_id;
  payload = x.payload;
}

abbrev pub valid_query : ProgressQuery → Bool
valid_query x = text_within x.player_id 64 && text_within x.operation_id 128

abbrev pub valid_player : PlayerRequest → Bool
valid_player x = text_within x.player_id 64

abbrev pub valid_equipment : EquipmentRequest → Bool
valid_equipment x =
    named x.player_id x.room_id
    && text_within x.operation_id 128
    && text_within x.slot 32
    && text_within x.item_id 128
    && is_token x.fencing_token
    && integer x.expected_revision

abbrev pub equipment_of_request : EquipmentRequest → EquipmentCommit
equipment_of_request x = record {
  player_id = x.player_id;
  room_id = x.room_id;
  fencing_token = column (int64 x.fencing_token);
  expected_revision = column (int64 x.expected_revision);
  operation_id = x.operation_id;
  slot = x.slot;
  item_id = x.item_id;
  equipped = x.equipped;
}

abbrev pub valid_quest : QuestRequest → Bool
valid_quest x =
    named x.player_id x.room_id
    && text_within x.operation_id 128
    && text_within x.quest_id 64
    && text_within x.objective_id 64
    && is_token x.fencing_token
    && integer x.expected_revision
    && is_token x.amount

abbrev pub quest_of_request : QuestRequest → QuestCommit
quest_of_request x = record {
  player_id = x.player_id;
  room_id = x.room_id;
  fencing_token = column (int64 x.fencing_token);
  expected_revision = column (int64 x.expected_revision);
  operation_id = x.operation_id;
  quest_id = x.quest_id;
  objective_id = x.objective_id;
  required = 0;
  amount = column (int64 x.amount);
  reward = [];
}

unfoldable pub quest_error : Error → Response
unfolding db_error
quest_error rejected = failure 422 "rejected"
quest_error e = db_error e

module _ (lib : Libs) (decoder : Decoder) (cx : Context) (body : List ℕ) where
  unfoldable pub acquire_route : Exchange
  acquire_route =
      when_valid (λ x. named x.player_id x.room_id) (decoder.lease body)
        λ x.
          answer db_error (λ out. response 200 (lease out))
            (acquire_session (cx.link 0) x.player_id x.room_id cx.now)

  unfoldable pub renew_route : Exchange
  renew_route = when_valid valid_lease (decoder.lease body) λ x.
      answer db_error (λ out. response 200 (lease out))
        (renew_session (cx.link 0) (lease_of_request x) cx.now)

  unfoldable pub release_lease_route : Exchange
  release_lease_route = when_valid valid_lease (decoder.lease body) λ x.
      answer db_error (λ out. response 200 status_ok)
        (release_session (cx.link 0) (lease_of_request x))

  unfoldable pub commit_route : Exchange
  commit_route = when_valid valid_commit (decoder.commit body) λ x.
      answer db_error (λ out. response 200 (operation out))
        (commit_progress lib (cx.link 0) (commit_of_request x) cx.now)

  unfoldable pub query_route : Exchange
  query_route =
      when_valid valid_query (decoder.query body) λ x.
        answer db_error (λ out. response 200 (operation out)) (query_progress lib (cx.link 0) x)

  unfoldable pub snapshot_route : Exchange
  snapshot_route = when_valid valid_player (decoder.player body) λ x.
      answer db_error (λ out. response 200 (progress out))
        (get_progress_snapshot (cx.link 0) x.player_id)

  unfoldable pub equipment_route : Exchange
  equipment_route = when_valid valid_equipment (decoder.equipment body) λ x.
      answer db_error (λ out. response 200 (progress out))
        (commit_equipment lib (cx.link 0) (equipment_of_request x) cx.now)

  unfoldable pub quests_route : Exchange
  quests_route = when_valid valid_player (decoder.player body) λ x.
      answer db_error (λ out. response 200 (quests out))
        (get_quest_snapshot (cx.link 0) x.player_id)

  unfoldable pub quest_route : Exchange
  quest_route = when_valid valid_quest (decoder.quest body) λ x.
      answer quest_error (λ out. response 200 (progress out))
        (service_commit_quest lib (cx.link 0) (cx.link 1) (quest_of_request x) cx.now)

  -- Another path falls through to what follows the routes.
  unfoldable pub progress_routes : String → Exchange → Exchange
  progress_routes path other =
      if path == "/v1/internal/progress/acquire"
      then acquire_route
      else if path == "/v1/internal/progress/renew"
      then renew_route
      else if path == "/v1/internal/progress/release"
      then release_lease_route
      else if path == "/v1/internal/progress/commit"
      then commit_route
      else if path == "/v1/internal/progress/query"
      then query_route
      else if path == "/v1/internal/progress/snapshot"
      then snapshot_route
      else if path == "/v1/internal/progress/equipment"
      then equipment_route
      else if path == "/v1/internal/progress/quests"
      then quests_route
      else if path == "/v1/internal/progress/quest"
      then quest_route
      else other
