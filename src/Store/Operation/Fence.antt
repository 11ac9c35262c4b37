-- ===== src/Store/Operation/Fence.antt =====
-- Backend/infra/postgres.go: what the updates `from active_player_session` demand.
use g_server.Common.{
  ℕ, ◌≤◌, String, ◌≡◌, ◌⊎◌, inl, inr, true, ◌&&◌, some, arith, ◌==◌, number_key, text_key,
  Bool-cases, Option-cases,
}
use g_server.Domain.{SessionLease, ProgressSnapshot}
use g_server.Store.{up, Link, Db, ProgressRow, ok, err, no_rows}
use g_server.Store.Lease.{lease_of, is_live}
use g_server.Store.Version.{progress_of, progress_schema_version}
use g_server.Store.Operation.{fenced_row, get_progress_snapshot, snapshot_of}

-- The fence and the revision that a write must meet.
pub record Fenced (player room : String) (token expected now : ℕ) (db : Db) (row : ProgressRow)
    : Type 0 where
  pub lease : SessionLease
  pub held : lease_of player db ≡ some lease
  pub live : is_live room token now lease ≡ true
  pub found : progress_of player db ≡ some row
  pub current : row.revision ≡ expected

-- Either no row is selected, or the one that is meets the fence; nothing is written.
pub fenced_row-cases :
    (player room : String) (token expected now : ℕ) (db : Db)
    → (fenced_row player room token expected now db ≡ (err no_rows, db))
      ⊎ ((row : ProgressRow) × Fenced player room token expected now db row
          × (fenced_row player room token expected now db ≡ (ok row, db)))
unfolding fenced_row
fenced_row-cases player room token expected now db = elim (Option-cases (lease_of player db)) [
  | inl absent ↦ inl (ground arith)
  | inr (l, held) ↦ elim (Option-cases (progress_of player db)) [
    | inl absent ↦ inl (ground arith)
    | inr (row, found) ↦ elim (Bool-cases (is_live room token now l && row.revision == expected)) [
      | inl meets ↦ inr (
        row,
        record {
          lease = l;
          held = held;
          live = ground arith;
          found = found;
          current = ground arith;
        },
        ground arith,
      )
      | inr fails ↦ inl (ground arith)
    ]
  ]
]

-- Reading a snapshot writes nothing.
pub get_progress_snapshot-same :
    (link : Link) (player : String) (db : Db) → (get_progress_snapshot link player db).1 ≡ db
unfolding get_progress_snapshot
get_progress_snapshot-same up player db = ground arith
get_progress_snapshot-same _ player db = ground arith

-- The snapshot is the row, at a version that the server knows.
pub get_progress_snapshot-eq :
    (link : Link) (player : String) (db db' : Db) {s : ProgressSnapshot}
    → get_progress_snapshot link player db ≡ (ok s, db')
    → (row : ProgressRow) × (progress_of player db ≡ some row)
      × (row.schema_version ≤ progress_schema_version)
      × (s ≡ snapshot_of row)
unfolding get_progress_snapshot
get_progress_snapshot-eq link player db db' {s} e = elim (Option-cases (progress_of player db)) [
  | inl absent ↦ absurd (ground arith)
  | inr (row, found) ↦ (row, found, ground arith, ground arith)
]
