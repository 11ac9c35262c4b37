-- ===== src/Store/Version.antt =====
-- Backend/infra/postgres.go: the data version of the rows of player_progress (requireProgressVersion,
-- lockProgressVersion, MigrateProgressSchema).
pub mod Migration
use Prim.Native.Nat.{max}
use g_server.Common.{ℕ, Bool, Option, List, [], ◌∷◌, String, ltb, find, update, ◌==◌, text_key}
use g_server.Store.{
  ProgressRow, Db, Query, Link, transact, raise_if, select, or_raise, write, ◌>>=◌, ◌>>◌, no_rows,
  unsupported_version,
}

abbrev pub progress_schema_version : ℕ
progress_schema_version = 2

abbrev pub require_progress_version : ℕ → Query (Unit {0})
require_progress_version version =
    raise_if (ltb progress_schema_version version) unsupported_version

-- `where player_id = $1` on player_progress.
abbrev pub is_progress_of : String → ProgressRow → Bool
is_progress_of player r = r.player_id == player

abbrev pub progress_of : String → Db → Option ProgressRow
progress_of player db = find (is_progress_of player) db.progress

abbrev pub select_progress : String → Query ProgressRow
select_progress player = do or_raise no_rows (← select (progress_of player))

unfoldable pub lock_progress_version : String → Query (Unit {0})
lock_progress_version player = do
  row ← select_progress player
  require_progress_version row.schema_version

-- `coalesce(max(schema_version), 0)`.
unfoldable pub max_version : List ProgressRow → ℕ
max_version [] = 0
max_version (r ∷ rs) = max r.schema_version (max_version rs)

unfoldable pub raise_versions : List ProgressRow → List ProgressRow
raise_versions =
    update (λ r. ltb r.schema_version progress_schema_version)
      (λ r. record r { schema_version = progress_schema_version })

-- Two statements, each sent to the pool.
unfoldable pub migrate_progress_schema : Link → Link → Query (Unit {0})
unfolding max_version raise_versions
migrate_progress_schema ask exec = do
  version ← transact ask (select (λ db. max_version db.progress))
  require_progress_version version
  transact exec (write (λ db. record db { progress = raise_versions db.progress }))
