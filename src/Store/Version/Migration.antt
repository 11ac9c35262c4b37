-- ===== src/Store/Version/Migration.antt =====
-- Backend/infra/postgres.go: MigrateProgressSchema on the rows of player_progress.
use g_server.Common.{
  List, [], ◌∷◌, ◌≡◌, refl, true, false, not, none, some, arith, find, update, ltb, ◌==◌,
  number_key, Bool,
}
use g_server.Store.{Db, ProgressRow, ok, err, up, Link, unsupported_version}
use g_server.Store.Version.{
  progress_schema_version, max_version, raise_versions, migrate_progress_schema,
}

-- A row that a newer server has written.
abbrev pub is_newer : ProgressRow → Bool
is_newer r = ltb progress_schema_version r.schema_version

abbrev pub is_current : ProgressRow → Bool
is_current r = r.schema_version == progress_schema_version

max_version-newer :
    (rs : List ProgressRow) {r : ProgressRow}
    → find is_newer rs ≡ some r
    → ltb progress_schema_version (max_version rs) ≡ true
unfolding find max_version
max_version-newer [] e = absurd (ground arith)
max_version-newer (x ∷ xs) {r} e = ground (arith, max_version-newer xs {r = r})

max_version-known :
    (rs : List ProgressRow)
    → find is_newer rs ≡ none
    → ltb progress_schema_version (max_version rs) ≡ false
unfolding find max_version
max_version-known [] e = refl
max_version-known (x ∷ xs) e = ground (arith, max_version-known xs)

raise_versions-current :
    (rs : List ProgressRow)
    → find is_newer rs ≡ none
    → find (λ r. not (is_current r)) (raise_versions rs) ≡ none
unfolding find raise_versions update
raise_versions-current [] e = refl
raise_versions-current (x ∷ xs) e = ground (arith, raise_versions-current xs)

raise_versions-stable :
    (rs : List ProgressRow) → find (λ r. not (is_current r)) rs ≡ none → raise_versions rs ≡ rs
unfolding find raise_versions update
raise_versions-stable [] e = refl
raise_versions-stable (x ∷ xs) e = ground (arith, raise_versions-stable xs)

current-known :
    (rs : List ProgressRow) → find (λ r. not (is_current r)) rs ≡ none → find is_newer rs ≡ none
unfolding find
current-known [] e = refl
current-known (x ∷ xs) e = ground (arith, current-known xs)

-- A row that a newer server has written makes the migration of versions fail and change nothing.
pub migrate_refuses :
    (exec : Link) (db : Db) {r : ProgressRow}
    → find is_newer db.progress ≡ some r
    → migrate_progress_schema up exec db ≡ (err unsupported_version, db)
unfolding migrate_progress_schema
migrate_refuses exec db {r} e = ground (arith, max_version-newer db.progress {r = r} e)

-- Where no row is newer, the migration succeeds, afterwards every row has the current version, and
-- a second migration changes nothing.
pub migrate_idempotent :
    (db : Db)
    → find is_newer db.progress ≡ none
    → ((migrate_progress_schema up up db).0 ≡ ok tt)
      × (find (λ r. not (is_current r)) (migrate_progress_schema up up db).1.progress ≡ none)
      × (migrate_progress_schema up up (migrate_progress_schema up up db).1
          ≡ (ok tt, (migrate_progress_schema up up db).1))
unfolding migrate_progress_schema
migrate_idempotent db e =
    let known = max_version-known db.progress e in
    let current = raise_versions-current db.progress e in
    let again =
      max_version-known (raise_versions db.progress)
        (current-known (raise_versions db.progress) current) in
    (
      ground (arith, known),
      ground (arith, known, current),
      ground (arith, known, again, raise_versions-stable (raise_versions db.progress) current),
    )
