-- ===== src/Transport/Status/Progress.antt =====
-- The statuses of the routes below /v1/internal/progress/.
use g_server.Common.{number_key, text_key, ℕ, List, String}
use g_server.Transport.Message.{
  db_error, Exchange, Decoder, Context, progress, lease, operation, quests,
}
use g_server.Transport.Routes.Progress.{
  quest_error, quest_route, progress_routes, valid_quest, acquire_route, renew_route,
  release_lease_route, commit_route, query_route, snapshot_route, equipment_route, quests_route,
  named, valid_lease, valid_commit, valid_query, valid_player, valid_equipment, status_ok,
  equipment_of_request, quest_of_request, lease_of_request, commit_of_request,
}
use g_server.Libs.{Libs}
use g_server.Store.Operation.{get_progress_snapshot, query_progress, get_quest_snapshot}
use g_server.Store.Equipment.{commit_equipment}
use g_server.Usecase.Service.{service_commit_quest}
use g_server.Store.Lease.{acquire_session, renew_session, release_session}
use g_server.Store.Progress.{commit_progress}
use g_server.Transport.Status.{
  Replies, call-Replies, if-Replies, db_error-is_reply, quest_error-is_reply,
}

module _ (lib : Libs) (decoder : Decoder) (cx : Context) (body : List ℕ) where
  acquire_route-Replies : Replies (acquire_route lib decoder cx body)
  unfolding acquire_route
  acquire_route-Replies =
      call-Replies db_error (λ x. named x.player_id x.room_id) (decoder.lease body) lease
        (λ x. acquire_session (cx.link 0) x.player_id x.room_id cx.now) db_error-is_reply

  renew_route-Replies : Replies (renew_route lib decoder cx body)
  unfolding renew_route
  renew_route-Replies =
      call-Replies db_error valid_lease (decoder.lease body) lease
        (λ x. renew_session (cx.link 0) (lease_of_request x) cx.now) db_error-is_reply

  release_lease_route-Replies : Replies (release_lease_route lib decoder cx body)
  unfolding release_lease_route
  release_lease_route-Replies =
      call-Replies db_error valid_lease (decoder.lease body) (λ _. status_ok)
        (λ x. release_session (cx.link 0) (lease_of_request x)) db_error-is_reply

  commit_route-Replies : Replies (commit_route lib decoder cx body)
  unfolding commit_route
  commit_route-Replies =
      call-Replies db_error valid_commit (decoder.commit body) operation
        (λ x. commit_progress lib (cx.link 0) (commit_of_request x) cx.now) db_error-is_reply

  query_route-Replies : Replies (query_route lib decoder cx body)
  unfolding query_route
  query_route-Replies =
      call-Replies db_error valid_query (decoder.query body) operation
        (query_progress lib (cx.link 0)) db_error-is_reply

  snapshot_route-Replies : Replies (snapshot_route lib decoder cx body)
  unfolding snapshot_route
  snapshot_route-Replies =
      call-Replies db_error valid_player (decoder.player body) progress
        (λ x. get_progress_snapshot (cx.link 0) x.player_id) db_error-is_reply

  equipment_route-Replies : Replies (equipment_route lib decoder cx body)
  unfolding equipment_route
  equipment_route-Replies =
      call-Replies db_error valid_equipment (decoder.equipment body) progress
        (λ x. commit_equipment lib (cx.link 0) (equipment_of_request x) cx.now) db_error-is_reply

  quests_route-Replies : Replies (quests_route lib decoder cx body)
  unfolding quests_route
  quests_route-Replies =
      call-Replies db_error valid_player (decoder.player body) quests
        (λ x. get_quest_snapshot (cx.link 0) x.player_id) db_error-is_reply

  quest_route-Replies : Replies (quest_route lib decoder cx body)
  unfolding quest_route
  quest_route-Replies =
      call-Replies quest_error valid_quest (decoder.quest body) progress
        (λ x. service_commit_quest lib (cx.link 0) (cx.link 1) (quest_of_request x) cx.now)
        quest_error-is_reply

  pub progress_routes-Replies :
      (path : String) (other : Exchange)
      → Replies other
      → Replies (progress_routes lib decoder cx body path other)
  unfolding progress_routes
  progress_routes-Replies path other h = if-Replies _ _ _ acquire_route-Replies (
      if-Replies _ _ _ renew_route-Replies (
        if-Replies _ _ _ release_lease_route-Replies (
          if-Replies _ _ _ commit_route-Replies (
            if-Replies _ _ _ query_route-Replies (
              if-Replies _ _ _ snapshot_route-Replies (
                if-Replies _ _ _ equipment_route-Replies (
                  if-Replies _ _ _ quests_route-Replies
                    (if-Replies _ _ _ quest_route-Replies h))))))))
