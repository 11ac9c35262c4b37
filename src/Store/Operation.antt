-- ===== src/Store/Operation.antt =====
-- Backend/infra/postgres.go: what CommitProgress, CommitEquipment and CommitQuest share. The table
-- progress_operation makes a commit idempotent, and the lease fences it.
pub mod Fence
use g_server.Common.{
  ℕ, Bool, true, false, not, ◌&&◌, Option, none, some, [], ◌∷◌, ◌++◌, String, find, update, lookup,
  ◌==◌, number_key, text_key, if◌then◌else◌,
}
use g_server.Domain.{
  JsonValue, text, number, boolean, other, Fields, ProgressSnapshot, ProgressQuery, QuestSnapshot,
  OperationResult, operation_succeeded,
}
use g_server.Libs.{Libs}
use g_server.Store.{
  Db, ProgressRow, OperationRow, Query, Link, transact, pure, raise, raise_if, select, or_raise,
  write, ◌>>=◌, ◌>>◌, no_rows, constraint,
}
use g_server.Store.Lease.{lease_of, is_live}
use g_server.Store.Version.{progress_of, is_progress_of, select_progress, require_progress_version}

abbrev pub is_operation : String → String → OperationRow → Bool
is_operation player operation r = r.player_id == player && r.operation_id == operation

abbrev pub operation_of : String → String → Db → Option OperationRow
operation_of player operation db = find (is_operation player operation) db.operations

-- The row that an update `from active_player_session s where … and p.revision = $4` selects: the
-- lease is live, of this room and token, and nobody has written since the caller read.
unfoldable pub fenced_row : String → String → ℕ → ℕ → ℕ → Query ProgressRow
fenced_row player room token expected now = do
  lease ← or_raise no_rows (← select (lease_of player))
  row ← select_progress player
  raise_if (not (is_live room token now lease && row.revision == expected)) no_rows
  pure row

-- `update player_progress … where player_id = $1`.
unfoldable pub write_progress : String → (ProgressRow → ProgressRow) → Query (Unit {0})
write_progress player f =
    write (λ d. record d { progress = update (is_progress_of player) f d.progress })

-- The primary key is (player_id, operation_id). The reference to `player` is that of the progress
-- row, which the callers have read.
unfoldable pub insert_operation : OperationRow → Query (Unit {0})
insert_operation r db = elim (operation_of r.player_id r.operation_id db) [
  | some _ ↦ raise constraint db
  | none ↦ write (λ d. record d { operations = d.operations ++ r ∷ [] }) db
]

-- `existing[key] != value` on a decoded object, negated.
abbrev is_text : String → Option JsonValue → Bool
is_text s (some (text t)) = t == s
is_text s (some (number n)) = false
is_text s (some (boolean b)) = false
is_text s (some other) = false
is_text s none = false

abbrev is_number : ℕ → Option JsonValue → Bool
is_number n (some (number m)) = m == n
is_number n (some (text t)) = false
is_number n (some (boolean b)) = false
is_number n (some other) = false
is_number n none = false

abbrev same_bool : Bool → Bool → Bool
same_bool true b = b
same_bool false b = not b

abbrev is_boolean : Bool → Option JsonValue → Bool
is_boolean b (some (boolean c)) = same_bool c b
is_boolean b (some (text t)) = false
is_boolean b (some (number n)) = false
is_boolean b (some other) = false
is_boolean b none = false

abbrev pub has_text : String → String → Fields → Bool
has_text key s fields = is_text s (lookup key fields)

abbrev pub has_number : String → ℕ → Fields → Bool
has_number key n fields = is_number n (lookup key fields)

abbrev pub has_boolean : String → Bool → Fields → Bool
has_boolean key b fields = is_boolean b (lookup key fields)

abbrev pub snapshot_of : ProgressRow → ProgressSnapshot
snapshot_of r = record {
  player_id = r.player_id;
  schema_version = r.schema_version;
  revision = r.revision;
  inventory = r.inventory;
  equipment = r.equipment;
  unlocks = r.unlocks;
  quests = r.quests;
}

unfoldable pub get_progress_snapshot : Link → String → Query ProgressSnapshot
get_progress_snapshot link player = do
  row ← transact link (select_progress player)
  require_progress_version row.schema_version
  pure (snapshot_of row)

unfoldable pub get_quest_snapshot : Link → String → Query QuestSnapshot
get_quest_snapshot link player = do
  row ← transact link (select_progress player)
  require_progress_version row.schema_version
  pure (record { player_id = row.player_id; revision = row.revision; unlocks = row.unlocks })

unfoldable pub query_progress : Libs → Link → ProgressQuery → Query OperationResult
query_progress lib link q = transact link do
  row ← or_raise no_rows (← select (operation_of q.player_id q.operation_id))
  pure (record {
    operation_id = row.operation_id;
    status = row.status;
    revision = row.revision;
    payload = lib.jsonb_out row.result;
    inventory = [];
  })
