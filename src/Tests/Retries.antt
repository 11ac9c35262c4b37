-- ===== src/Tests/Retries.antt =====
-- A pickup that arrives over HTTP, is sent again, and is sent over a connection that breaks.
use g_server.Common.{pos, false, some, [], ◌∷◌, number_key, text_key}
use g_server.Tests.Sample.{lib, playing, coin, ann_progress}
use g_server.Store.{Db, ProgressRow}
use g_server.Store.Progress.Effect.{picked_db}
use g_server.Transport.Routes.Progress.{commit_of_request}
use g_server.Tests.Http.{decoder, cx, request}
use g_server.Store.{ack_lost}
use g_server.Transport.Message.{Decoder, Request, CommitRequest, Context}
use g_server.Transport.Number.{finite}

abbrev sent : CommitRequest
sent = record {
  player_id = "ann";
  room_id = "g0-room";
  operation_id = "op-1";
  payload = "coin";
  fencing_token = finite false 1 (pos 0);
  expected_revision = finite false 4 (pos 0);
}

abbrev commits : Decoder
commits = record decoder { commit = λ b. some sent }

abbrev commit_request : Request
commit_request = request "/v1/internal/progress/commit" "Bearer 0123456789abcdef0123456789abcdef"

abbrev breaking : Context
breaking = record cx { link = λ n. ack_lost }

-- The database after the pickup, and then with a chest of coins more in the inventory.
abbrev committed : Db
committed = picked_db lib (commit_of_request sent) coin ann_progress [] playing

abbrev ann_later : ProgressRow
ann_later = record ann_progress { revision = 9; inventory = ("coin", 50) ∷ [] }

abbrev much_later : Db
much_later = record committed { progress = ann_later ∷ [] }
