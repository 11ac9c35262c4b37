-- ===== src/Transport/Status.antt =====
-- Backend/transport/http.go: the statuses that the routes answer with.
pub mod Progress
pub mod Players
pub mod Serve
use g_server.Common.{
  true, false, refl, true, arith, ◌≡◌, ◌==◌, number_key, text_key, ◌||◌, Bool, ℕ, Option, none,
  some, if◌then◌else◌, List, String,
}
use g_server.Transport.Message.{
  db_error, Exchange, Response, when_valid, answer, send, refuse, Body, response, Decoder, Context,
  progress, lease, operation, quests,
}
use g_server.Transport.Routes.Progress.{
  quest_error, quest_route, progress_routes, valid_quest, acquire_route, renew_route,
  release_lease_route, commit_route, query_route, snapshot_route, equipment_route, quests_route,
  named, valid_lease, valid_commit, valid_query, valid_player, valid_equipment, status_ok,
  equipment_of_request, quest_of_request, lease_of_request, commit_of_request,
}
use g_server.Transport.Routes.Players.{allocate_error}
use g_server.Store.{Error, Db, Query, Result, ok, err}
use g_server.Libs.{Libs}
use g_server.Store.Operation.{get_progress_snapshot, query_progress, get_quest_snapshot}
use g_server.Store.Equipment.{commit_equipment}
use g_server.Usecase.Service.{service_commit_quest}
use g_server.Store.Lease.{acquire_session, renew_session, release_session}
use g_server.Store.Progress.{commit_progress}

abbrev pub is_reply : ℕ → Bool
is_reply n = n == 200 || n == 401 || n == 409 || n == 422 || n == 503

pub db_error-is_reply : (e : Error) → is_reply (db_error e).status ≡ true
unfolding db_error
db_error-is_reply e = ground arith

pub quest_error-is_reply : (e : Error) → is_reply (quest_error e).status ≡ true
unfolding quest_error
quest_error-is_reply e = ground (arith, db_error-is_reply e)

pub allocate_error-is_reply : (e : Error) → is_reply (allocate_error e).status ≡ true
unfolding allocate_error
allocate_error-is_reply e = ground (arith, db_error-is_reply e)

-- A response with one of these statuses, whatever the database.
pub Replies : Exchange → Type 0
Replies x = (db : Db) → is_reply (x db).0.status ≡ true

pub answer-Replies :
    {A : Type 0} (fail : Error → Response) (done : A → Response) (q : Query A)
    → ((e : Error) → is_reply (fail e).status ≡ true)
    → ((a : A) → is_reply (done a).status ≡ true)
    → Replies (answer fail done q)
unfolding Replies
answer-Replies fail done q h k db = sent (q db)
  where
    sent : (r : Result _ × Db) → is_reply (send fail done r).0.status ≡ true
    sent (ok a, d) = k a
    sent (err e, d) = h e

pub when_valid-Replies :
    {X : Type 0} (valid : X → Bool) (o : Option X) (next : X → Exchange)
    → ((x : X) → Replies (next x))
    → Replies (when_valid valid o next)
unfolding Replies
when_valid-Replies valid none next h db = refl
when_valid-Replies valid (some x) next h db = ground (arith, h x db)

pub if-Replies : (b : Bool) (x y : Exchange) → Replies x → Replies y → Replies (if b then x else y)
if-Replies true x y h k = h
if-Replies false x y h k = k

pub refuse-Replies : (out : Response) → is_reply out.status ≡ true → Replies (refuse out)
unfolding Replies
refuse-Replies out h db = h

-- A call of the service that is answered with 200.
pub call-Replies :
    {X A : Type 0} (fail : Error → Response) (valid : X → Bool) (o : Option X) (body : A → Body)
    (q : X → Query A)
    → ((e : Error) → is_reply (fail e).status ≡ true)
    → Replies (when_valid valid o (λ x. answer fail (λ a. response 200 (body a)) (q x)))
call-Replies fail valid o body q h =
    when_valid-Replies valid o (λ x. answer fail (λ a. response 200 (body a)) (q x))
      (λ x. answer-Replies fail (λ a. response 200 (body a)) (q x) h (λ a. refl))
