-- ===== src/Process/Migrated.antt =====
-- Backend/main.go with Backend/infra/postgres.go: the command migrate.
use g_server.Common.{
  String, not, Option, none, some, List, [], ◌∷◌, ◌≡◌, refl, sym, ap, ◌∙◌, subst, arith, find, ◌==◌,
  text_key, number_key, Option-cases, inl, inr,
}
use g_server.Store.{Db, up, ok, err, Result}
use g_server.Store.Version.{migrate_progress_schema}
use g_server.Store.Version.Migration.{is_newer, is_current, migrate_refuses, migrate_idempotent}
use g_server.Store.Migration.{Entry, Schema, Outcome, done, failed, migrate, script_names, finish}
use g_server.Store.Migration.Replay.{AreApplied, migrate_once, migrate_files-again}
use g_server.Process.Commands.{
  World, Ending, finished, run, run_migrate, then_progress, settled, migrations_dir, with_state,
  command_of,
}
use g_server.Process.Account.{settled-ok}
use g_server.Libs.{Libs}

-- A migration of versions that succeeds has made every row current, and does nothing more.
progress_migrated :
    (db db' : Db)
    → migrate_progress_schema up up db ≡ (ok tt, db')
    → (find (λ r. not (is_current r)) db'.progress ≡ none)
      × (migrate_progress_schema up up db' ≡ (ok tt, db'))
progress_migrated db db' e = elim (Option-cases (find is_newer db.progress)) [
  | inr (r, newer) ↦ absurd (ground (arith, e, migrate_refuses up db {r = r} newer))
  | inl known ↦
      let (_, current, again) = migrate_idempotent db known in
      let same : (migrate_progress_schema up up db).1 ≡ db' =
        ap (λ (r : Result (Unit {0}) × Db). r.1) e in
      (
        subst (λ (d : Db). find (λ r. not (is_current r)) d.progress ≡ none) same current,
        subst (λ (d : Db). migrate_progress_schema up up d ≡ (ok tt, d)) same again,
      )
]

settled-state :
    (message : String) (s s' : Schema Db) (r : Result (Unit {0}) × Db)
    → settled message s r ≡ (finished, s')
    → s' ≡ with_state s s'.state
settled-state message s s' (ok x, db) e =
    let same : with_state s db ≡ s' = ap (λ (r : Ending × Schema Db). r.1) e in
    sym same ∙ ap (λ (t : Schema Db). with_state s t.state) same
settled-state message s s' (err x, db) e = absurd (ground (arith, e))

module _ (lib : Libs) (exec : String → Db → Option Db) (w : World) where
  AreApplied-with_state :
      (dir : List Entry) (names : List String) (s : Schema Db) (db : Db)
      → AreApplied exec lib.sha256_hex dir names s
      → AreApplied exec lib.sha256_hex dir names (with_state s db)
  unfolding AreApplied
  AreApplied-with_state dir [] s db a = tt
  AreApplied-with_state dir (name ∷ names) s db (here, rest) =
      (here, AreApplied-with_state dir names s db rest)

  -- The parts of a command that ends well.
  both_done :
      (s s' : Schema Db) (r : Outcome (Unit {0}) × Schema Db)
      → w.link 1 ≡ up
      → w.link 2 ≡ up
      → then_progress lib exec w r ≡ (finished, s')
      → (r ≡ (done tt, r.1))
        × (migrate_progress_schema up up r.1.state ≡ (ok tt, s'.state))
        × (s' ≡ with_state r.1 s'.state)
  both_done s s' (failed e, mid) l1 l2 h = absurd (ground (arith, h))
  both_done s s' (done tt, mid) l1 l2 h =
      let ran =
        settled-ok "progress schema migration failed" mid s'
          (migrate_progress_schema (w.link 1) (w.link 2) mid.state) h in
      (
        refl,
        ap (λ l. migrate_progress_schema l up mid.state) (sym l1)
            ∙ ap (λ l. migrate_progress_schema (w.link 1) l mid.state) (sym l2)
            ∙ ran,
        settled-state "progress schema migration failed" mid s' _ h,
      )

  -- run with the word migrate, once its guards are passed.
  run-migrate :
      (s s' t : Schema Db)
      → w.args ≡ "migrate" ∷ []
      → run lib exec w s ≡ (finished, s')
      → run lib exec w t ≡ run_migrate lib exec w t
  unfolding run
  run-migrate s s' t a e =
      let word = ap command_of a in
      ground (
        arith,
        e,
        ap (λ cmd. cmd == "serve") word,
        ap (λ cmd. cmd == "migrate") word,
        ap (λ cmd. cmd == "seed") word,
      )

  abbrev scripts : Schema Db → Outcome (Unit {0}) × Schema Db
  scripts t = migrate exec lib.sha256_hex (w.link 0) (w.read_dir (migrations_dir w)) t

  scripts-eq :
      (dir : List Entry) (t : Schema Db)
      → w.link 0 ≡ up
      → w.read_dir (migrations_dir w) ≡ some dir
      → scripts t ≡ migrate exec lib.sha256_hex up (some dir) t
  scripts-eq dir t l0 found =
      ap (λ l. migrate exec lib.sha256_hex l (w.read_dir (migrations_dir w)) t) l0
      ∙ ap (λ d. migrate exec lib.sha256_hex up d t) found

  scripts-again :
      (dir : List Entry) (t : Schema Db)
      → w.link 0 ≡ up
      → w.read_dir (migrations_dir w) ≡ some dir
      → AreApplied exec lib.sha256_hex dir (script_names dir) t
      → scripts t ≡ (done tt, t)
  unfolding migrate
  scripts-again dir t l0 found all =
      scripts-eq dir t l0 found
      ∙ ap (finish exec lib.sha256_hex up t)
          (migrate_files-again exec lib.sha256_hex dir (script_names dir) t all)

  run_migrate-again :
      (t : Schema Db)
      → w.link 1 ≡ up
      → w.link 2 ≡ up
      → scripts t ≡ (done tt, t)
      → migrate_progress_schema up up t.state ≡ (ok tt, t.state)
      → run_migrate lib exec w t ≡ (finished, t)
  unfolding run_migrate
  run_migrate-again t l1 l2 all current =
      ap (then_progress lib exec w) all
      ∙ ap (settled "progress schema migration failed" t) (
          ap (λ l. migrate_progress_schema l (w.link 2) t.state) l1
          ∙ ap (λ l. migrate_progress_schema up l t.state) l2
          ∙ current)

  -- On connections that work: after a run of migrate that ends well every script of the directory is
  -- recorded under its checksum, every row of progress has the current version, and the same run
  -- again ends well and changes nothing.
  pub run_migrate_once :
      (dir : List Entry) (s s' : Schema Db)
      → w.args ≡ "migrate" ∷ []
      → w.link 0 ≡ up
      → w.link 1 ≡ up
      → w.link 2 ≡ up
      → w.read_dir (migrations_dir w) ≡ some dir
      → run lib exec w s ≡ (finished, s')
      → AreApplied exec lib.sha256_hex dir (script_names dir) s'
        × (find (λ r. not (is_current r)) s'.state.progress ≡ none)
        × (run lib exec w s' ≡ (finished, s'))
  unfolding run_migrate
  run_migrate_once dir s s' a l0 l1 l2 found e =
      let (first, versions, kept) =
        both_done s s' (scripts s) l1 l2 (sym (run-migrate s s' s a e) ∙ e) in
      let migrated = sym (scripts-eq dir s l0 found) ∙ first in
      let (all, _) = migrate_once exec lib.sha256_hex dir s (scripts s).1 migrated in
      let still =
        subst (AreApplied exec lib.sha256_hex dir (script_names dir)) (sym kept)
          (AreApplied-with_state dir (script_names dir) (scripts s).1 s'.state all) in
      let (current, again) = progress_migrated (scripts s).1.state s'.state versions in
      (
        still,
        current,
        run-migrate s s' s' a e
            ∙ run_migrate-again s' l1 l2 (scripts-again dir s' l0 found still) again,
      )
