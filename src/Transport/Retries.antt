-- ===== src/Transport/Retries.antt =====
-- Backend/transport/http.go: a pickup that a game server sends again.
use g_server.Common.{String, some, List, ◌≡◌, text_key, number_key, ◌⊎◌}
use g_server.Transport.Message.{
  Response, Request, response, Decoder, Context, operation, failure, CommitRequest,
}
use g_server.Store.{Db, ProgressRow, OperationRow}
use g_server.Store.Operation.{operation_of}
use g_server.Domain.{OperationResult}
use g_server.Libs.{Libs}
use g_server.Usecase.Service.{Service}
use g_server.Transport.Serve.{route}

module _ (lib : Libs) (decoder : Decoder) (keys : List String) (service : Service) where
  -- What a pickup that is answered with `first_answer` finds when the same request comes again, where
  -- `kept` has the progress row `row`: the same answer, but for the payload, which is as PostgreSQL
  -- spells the recorded one, and the inventory, which is that of the row. The first answer has the
  -- payload as it came, unless the operation was known already.
  pub record IsReplay (r : Request) (x : CommitRequest) (later lost : Context) (db db' kept : Db)
      (first_answer : Response) (row : ProgressRow) : Type 0 where
    pub out : OperationResult
    pub old : OperationRow
    pub shown : first_answer ≡ response 200 (operation out)
    pub recorded : operation_of x.player_id x.operation_id db' ≡ some old
    pub first :
        (operation_of x.player_id x.operation_id db ≡ some old)
        ⊎ ((out.payload ≡ x.payload) × (lib.jsonb_in x.payload ≡ some old.result))
    pub again : route lib decoder keys service later r kept ≡ (
      response 200 (
          operation (record out { payload = lib.jsonb_out old.result; inventory = row.inventory })),
      kept,
    )
    pub unacknowledged :
        route lib decoder keys service lost r db ≡ (failure 503 "database unavailable", db')
