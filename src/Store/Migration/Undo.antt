-- ===== src/Store/Migration/Undo.antt =====
-- Migrate, then Rollback of everything: the scripts of a directory against their down scripts.
use g_server.Common.{
  [], ◌∷◌, ◌++◌, refl, arith, none, some, lookup, insert, erase, lookup-insert, text_refl, pos,
  false, true, ◌≡◌, List, String, Option, Dict, ◌==◌, text_key, append_assoc, append-nil, reverse,
  reverse-append, sym, ap, ◌∙◌, Bool,
}
use g_server.Store.Migration.{
  Entry, Schema, done, migrate_file, read_file, migrate_files, migrate, up, rollback, roll_back,
  latest_names, insert_latest, down_name, script_names, settle_rolled,
}

abbrev All : (String → Type 0) → List String → Type 0
All P [] = Unit {0}
All P (x ∷ xs) = P x × All P xs

-- The database's order puts the names as the directory lists them, and they differ.
abbrev pub IsAscending : (String → String → Bool) → List String → Type 0
IsAscending text_before [] = Unit {0}
IsAscending text_before (name ∷ names) =
    All (λ other. (text_before name other ≡ true) × ((name == other) ≡ false)) names
    × IsAscending text_before names

abbrev pub names_of : Dict String → List String
names_of [] = []
names_of ((name, sum) ∷ rows) = name ∷ names_of rows

abbrev AreAbsent : Dict String → List String → Type 0
AreAbsent rows names = All (λ name. lookup name rows ≡ none) names

AreAbsent-empty : (names : List String) → AreAbsent [] names
unfolding lookup
AreAbsent-empty [] = tt
AreAbsent-empty (name ∷ names) = (refl, AreAbsent-empty names)

names_of-insert :
    (name sum : String) (rows : Dict String)
    → lookup name rows ≡ none
    → names_of (insert name sum rows) ≡ names_of rows ++ name ∷ []
unfolding lookup insert
names_of-insert name sum [] h = refl
names_of-insert name sum ((other, w) ∷ rows) h = ground (arith, h, names_of-insert name sum rows)

erase-absent :
    (name : String) (rows : Dict String) → lookup name rows ≡ none → erase name rows ≡ rows
unfolding lookup erase
erase-absent name [] h = refl
erase-absent name ((other, w) ∷ rows) h = ground (arith, h, erase-absent name rows)

erase-insert :
    (name sum : String) (rows : Dict String)
    → lookup name rows ≡ none
    → erase name (insert name sum rows) ≡ rows
unfolding lookup insert erase
erase-insert name sum [] h = ground (arith, text_refl name)
erase-insert name sum ((other, w) ∷ rows) h = ground (arith, h, erase-insert name sum rows)

AreAbsent-insert :
    (text_before : String → String → Bool) (name sum : String) (rows : Dict String)
    (names : List String)
    → All (λ other. (text_before name other ≡ true) × ((name == other) ≡ false)) names
    → AreAbsent rows names
    → AreAbsent (insert name sum rows) names
AreAbsent-insert text_before name sum rows [] differ absent = tt
AreAbsent-insert text_before name sum rows (other ∷ names) (d, differ) (a, absent) = (
  ground (arith, lookup-insert name other sum rows, d, a),
  AreAbsent-insert text_before name sum rows names differ absent,
)

insert_latest-last :
    (text_before : String → String → Bool) (name : String) (latest : List String)
    → All (λ other. (text_before name other ≡ true) × ((name == other) ≡ false)) latest
    → insert_latest text_before name latest ≡ latest ++ name ∷ []
unfolding insert_latest
insert_latest-last text_before name [] h = refl
insert_latest-last text_before name (other ∷ latest) (d, h) =
    ground (arith, d.0, insert_latest-last text_before name latest h)

All-append :
    (P : String → Type 0) (xs : List String) (x : String) → All P xs → P x → All P (xs ++ x ∷ [])
All-append P [] x h k = (k, tt)
All-append P (y ∷ xs) x (p, h) k = (p, All-append P xs x h k)

reverse-cons : (x : String) (xs : List String) → reverse (x ∷ xs) ≡ reverse xs ++ x ∷ []
reverse-cons x xs = reverse-append (x ∷ []) xs

All-reverse : (P : String → Type 0) (xs : List String) → All P xs → All P (reverse xs)
All-reverse P [] h = tt
All-reverse P (x ∷ xs) (k, h) =
    rw (reverse-cons x xs) (All-append P (reverse xs) x (All-reverse P xs h) k)

latest_names-reverse :
    (text_before : String → String → Bool) (rows : Dict String)
    → IsAscending text_before (names_of rows)
    → latest_names text_before rows ≡ reverse (names_of rows)
unfolding latest_names
latest_names-reverse text_before [] h = refl
latest_names-reverse text_before ((name, sum) ∷ rows) (first, h) =
    rw (latest_names-reverse text_before rows h) (
      insert_latest-last text_before name (reverse (names_of rows))
        (All-reverse _ (names_of rows) first)
      ∙ sym (reverse-cons name (names_of rows)))

module _ {S : Type 0} (exec : String → S → Option S) (sha256_hex : String → String) where
  -- From these tables each script runs in turn, and its down script takes back what it has done
  -- there.
  abbrev pub AreUndone : List Entry → List String → S → Type 0
  AreUndone dir [] before = Unit {0}
  AreUndone dir (name ∷ names) before =
      (script : String) × (down : String) × (after : S) × (read_file name dir ≡ some script)
      × (read_file (down_name name) dir ≡ some down)
      × (exec script before ≡ some after)
      × (exec down after ≡ some before)
      × AreUndone dir names after

  abbrev recorded : Schema S → S → String → String → Schema S
  recorded db after name script = record {
    state = after;
    applied = insert name (sha256_hex script) db.applied;
  }

  -- A script that is not recorded yet runs and is recorded.
  migrate_files-next :
      (dir : List Entry) (name script : String) (names : List String) (db : Schema S) (after : S)
      → read_file name dir ≡ some script
      → exec script db.state ≡ some after
      → lookup name db.applied ≡ none
      → migrate_files exec sha256_hex dir (name ∷ names) db
        ≡ migrate_files exec sha256_hex dir names (recorded db after name script)
  unfolding migrate_files migrate_file
  migrate_files-next dir name script names db after there ran absent =
      ground (arith, there, ran, absent)

  -- The down script takes it back, with its record.
  roll_back-next :
      (dir : List Entry) (name script down : String) (rolled more : List String) (db : Schema S)
      (after : S)
      → read_file (down_name name) dir ≡ some down
      → exec down after ≡ some db.state
      → lookup name db.applied ≡ none
      → roll_back exec sha256_hex dir (pos 0) (name ∷ more) rolled (recorded db after name script)
        ≡ roll_back exec sha256_hex dir (pos 0) more (rolled ++ name ∷ []) db
  unfolding roll_back
  roll_back-next dir name script down rolled more db after back undo absent =
      ground (arith, back, undo, erase-insert name (sha256_hex script) db.applied absent)

  -- What a migration from `db` leaves; `more` are the names below `names`, in the order of a
  -- rollback.
  abbrev IsBack :
      List Entry → List String → List String → List String → Schema S → Schema S → Type 0
  IsBack dir names rolled more db next =
      (migrate_files exec sha256_hex dir names db ≡ done next)
      × (names_of next.applied ≡ names_of db.applied ++ names)
      × (roll_back exec sha256_hex dir (pos 0) (reverse names ++ more) rolled next
          ≡ roll_back exec sha256_hex dir (pos 0) more (rolled ++ reverse names) db)

  migrate_files-IsBack :
      (text_before : String → String → Bool) (dir : List Entry) (names rolled more : List String)
      (db : Schema S)
      → IsAscending text_before names
      → AreAbsent db.applied names
      → AreUndone dir names db.state
      → (next : Schema S) × IsBack dir names rolled more db next
  unfolding migrate_files
  migrate_files-IsBack text_before dir [] rolled more db up_to absent undone =
      (db, (refl, sym (append-nil (names_of db.applied)), rw (append-nil rolled) refl))
  migrate_files-IsBack text_before dir (name ∷ names) rolled more db (first, up_to) (new, absent)
        (script, down, after, there, back, ran, undo, undone) =
      let mid = recorded db after name script in
      let still =
        AreAbsent-insert text_before name (sha256_hex script) db.applied names first absent in
      let (next, (all_run, all, ih)) =
        migrate_files-IsBack text_before dir names rolled (name ∷ more) mid up_to still undone in
      (
        next,
        (
          migrate_files-next dir name script names db after there ran new ∙ all_run,
          all
              ∙ ap (λ l. l ++ names) (names_of-insert name (sha256_hex script) db.applied new)
              ∙ append_assoc (names_of db.applied) (name ∷ []) names,
          rw (reverse-cons name names, append_assoc (reverse names) (name ∷ []) more)
              (ih
                ∙ roll_back-next dir name script down (rolled ++ reverse names) more db after back
                    undo new
                ∙ ap (λ l. roll_back exec sha256_hex dir (pos 0) more l db)
                    (append_assoc rolled (reverse names) (name ∷ []))),
        ),
      )

  -- Where no migration is recorded, and each script runs in turn and is taken back by its down
  -- script from where it has led, a migration succeeds, and a rollback of all of them after it
  -- succeeds, answers with the names in reverse, and leaves the tables and schema_migration as they
  -- were before. The names differ, and the database orders them as the directory is sorted.
  pub rollback-migrate :
      (text_before : String → String → Bool) (dir : List Entry) (state : S)
      → IsAscending text_before (script_names dir)
      → AreUndone dir (script_names dir) state
      → (next : Schema S) × (migrate exec sha256_hex up
            (some dir)
            (record { state = state; applied = [] })
          ≡ (done tt, next))
        × (names_of next.applied ≡ script_names dir)
        × (rollback exec sha256_hex text_before up dir (pos 0) next
            ≡ ((reverse (script_names dir), done tt), record { state = state; applied = [] }))
  unfolding migrate rollback roll_back
  rollback-migrate text_before dir state up_to undone =
      let names = script_names dir in
      let bare : Schema S = record { state = state; applied = [] } in
      let (next, (ran, listed, back)) =
        migrate_files-IsBack text_before dir names [] [] bare up_to (AreAbsent-empty names)
          undone in
      let order =
        latest_names-reverse text_before next.applied (rw listed up_to) ∙ ap reverse listed in
      (
        next,
        ground (arith, ran),
        listed,
        ap (settle_rolled exec sha256_hex up next) (
            ap (λ l. roll_back exec sha256_hex dir (pos 0) l [] next)
              (order ∙ sym (append-nil (reverse names)))
            ∙ back),
      )
