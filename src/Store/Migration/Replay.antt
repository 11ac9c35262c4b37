-- ===== src/Store/Migration/Replay.antt =====
-- A migration is applied once: what a second run finds.
use g_server.Common.{
  [], ◌∷◌, inl, inr, refl, arith, none, some, lookup, insert, lookup-insert, text_iff, text_refl,
  Option-cases, ◌≡◌, List, String, Option, ◌⊎◌,
}
use g_server.Store.Migration.{
  Entry, Schema, done, migrate_file, read_file, Outcome, migrate_files, migrate, up, Failure,
  script_names, failed,
}

Outcome-cases :
    {A : Type 0} (o : Outcome A) → ((a : A) × (o ≡ done a)) ⊎ ((e : Failure) × (o ≡ failed e))
Outcome-cases (done a) = inl (a, refl)
Outcome-cases (failed e) = inr (e, refl)

module _ {S : Type 0} (exec : String → S → Option S) (sha256_hex : String → String) where
  -- A script of the directory that has been applied, under the checksum it has now.
  abbrev pub IsApplied : List Entry → String → Schema S → Type 0
  IsApplied dir name db =
      (script : String) × (read_file name dir ≡ some script)
      × (lookup name db.applied ≡ some (sha256_hex script))

  migrate_file-applied :
      (name : String) (o : Option String) (db next : Schema S)
      → migrate_file exec sha256_hex name o db ≡ done next
      → (script : String) × (o ≡ some script)
        × (lookup name next.applied ≡ some (sha256_hex script))
        × ((other sum : String)
            → lookup other db.applied ≡ some sum
            → lookup other next.applied ≡ some sum)
  unfolding migrate_file
  migrate_file-applied name none db next e = absurd (ground arith)
  migrate_file-applied name (some script) db next e = elim (Option-cases (lookup name db.applied)) [
    | inr (old, found) ↦ (
      script,
      refl,
      ground (arith, text_iff old (sha256_hex script)),
      λ other sum k. ground arith,
    )
    | inl absent ↦ elim (Option-cases (exec script db.state)) [
      | inl refused ↦ absurd (ground arith)
      | inr (state, ran) ↦
          let same : record { state = state; applied = insert name (sha256_hex script) db.applied }
              ≡ next =
            ground arith in
          (
            script,
            refl,
            ground (
              arith,
              same,
              text_refl name,
              lookup-insert name name (sha256_hex script) db.applied,
            ),
            λ other sum k. ground (
              arith,
              same,
              text_iff name other,
              lookup-insert name other (sha256_hex script) db.applied,
            ),
          )
    ]
  ]

  unfoldable pub AreApplied : List Entry → List String → Schema S → Type 0
  AreApplied dir [] db = Unit {0}
  AreApplied dir (name ∷ names) db = IsApplied dir name db × AreApplied dir names db

  pub first_done :
      (dir : List Entry) (name : String) (names : List String) (db next : Schema S)
      → migrate_files exec sha256_hex dir (name ∷ names) db ≡ done next
      → (mid : Schema S) × (migrate_file exec sha256_hex name (read_file name dir) db ≡ done mid)
        × (migrate_files exec sha256_hex dir names mid ≡ done next)
  unfolding migrate_files
  first_done dir name names db next e =
      elim (Outcome-cases (migrate_file exec sha256_hex name (read_file name dir) db)) [
        | inl (mid, ran) ↦ (mid, ran, ground (arith, ran, e))
        | inr (why, broke) ↦ absurd (ground (arith, broke, e))
      ]

  migrate_files-AreApplied :
      (dir : List Entry) (names : List String) (db next : Schema S)
      → migrate_files exec sha256_hex dir names db ≡ done next
      → AreApplied dir names next
        × ((other sum : String)
            → lookup other db.applied ≡ some sum
            → lookup other next.applied ≡ some sum)
  unfolding migrate_files AreApplied
  migrate_files-AreApplied dir [] db next e = (tt, λ other sum k. ground (arith, e, k))
  migrate_files-AreApplied dir (name ∷ names) db next e =
      let (mid, ran, rest) = first_done dir name names db next e in
      let (script, there, kept, grows) =
        migrate_file-applied name (read_file name dir) db mid ran in
      let (all, still) = migrate_files-AreApplied dir names mid next rest in
      (
        ((script, there, still name (sha256_hex script) kept), all),
        λ other sum k. still other sum (grows other sum k),
      )

  -- With every script applied there is nothing to do.
  pub migrate_files-again :
      (dir : List Entry) (names : List String) (db : Schema S)
      → AreApplied dir names db
      → migrate_files exec sha256_hex dir names db ≡ done db
  unfolding migrate_files migrate_file AreApplied
  migrate_files-again dir [] db a = refl
  migrate_files-again dir (name ∷ names) db ((script, there, kept), rest) =
      ground
        (arith, there, kept, text_refl (sha256_hex script), migrate_files-again dir names db rest)

  -- After a migration that succeeds every script of the directory is recorded under its checksum,
  -- and the same migration again succeeds and changes nothing.
  pub migrate_once :
      (dir : List Entry) (db next : Schema S)
      → migrate exec sha256_hex up (some dir) db ≡ (done tt, next)
      → AreApplied dir (script_names dir) next
        × (migrate exec sha256_hex up (some dir) next ≡ (done tt, next))
  unfolding migrate
  migrate_once dir db next e =
      let ran : migrate_files exec sha256_hex dir (script_names dir) db ≡ done next =
        ground (arith, e) in
      let all = (migrate_files-AreApplied dir (script_names dir) db next ran).0 in
      (all, ground (arith, migrate_files-again dir (script_names dir) next all))
