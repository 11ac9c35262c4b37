-- ===== src/Store/Migration.antt =====
-- Backend/infra/postgres.go: Migrate and Rollback, over a directory of SQL scripts.
pub mod Replay
pub mod Latest
pub mod Steps
pub mod Undo
use Prim.Native.String.{len, slice, compare, ◌++◌ as append}
use Prim.Native.Nat.{Ordering}
use g_server.Common.{
  ℤ, pos, negsuc, ℕ, ◌-◌, Bool, true, false, not, ◌&&◌, ◌||◌, Option, none, some, List, [], ◌∷◌,
  ◌++◌, String, leb, ltb, length, Dict, lookup, insert, erase, ◌==◌, text_key, if◌then◌else◌,
  number_key,
}
use g_server.Store.{Link, up, begin_fails, commit_fails, ack_lost}

-- An entry of the directory; `none` is a file that cannot be read.
pub record Entry : Type 0 where
  pub name : String
  pub is_dir : Bool
  pub content : Option String

-- The tables of the database as the scripts see them, and the table schema_migration: the name of
-- each migration and its checksum.
pub record Schema (S : Type 0) : Type 0 where
  pub state : S
  pub applied : Dict String

pub data Failure : Type 0 where
  no_directory no_connection : Failure
  unreadable mismatch script_fails missing_down : String → Failure

pub data Outcome (A : Type 0) : Type 0 where
  done : A → Outcome A
  failed : Failure → Outcome A

abbrev pub has_suffix : String → String → Bool
has_suffix s suffix = leb (len suffix) (len s) && slice s (len s - len suffix) (len s) == suffix

abbrev pub trim_suffix : String → String → String
trim_suffix s suffix = if has_suffix s suffix then slice s 0 (len s - len suffix) else s

abbrev pub is_script : Entry → Bool
is_script e = not e.is_dir && has_suffix e.name ".sql" && not (has_suffix e.name ".down.sql")

abbrev pub is_after : String → String → Bool
is_after s t = elim (compare s t) [ Ordering.gt ↦ true | _ ↦ false ]

-- `sort.Strings`.
unfoldable pub insert_name : String → List String → List String
insert_name s [] = s ∷ []
insert_name s (t ∷ ts) =
    let rest = insert_name s ts in if is_after s t then t ∷ rest else s ∷ t ∷ ts

unfoldable pub script_names : List Entry → List String
unfolding insert_name
script_names [] = []
script_names (e ∷ es) =
    let rest = script_names es in if is_script e then insert_name e.name rest else rest

-- `os.ReadFile`.
unfoldable pub read_file : String → List Entry → Option String
read_file s [] = none
read_file s (e ∷ es) = if e.name == s && not e.is_dir then e.content else read_file s es

-- `Begin` has failed, before anything is rolled back.
abbrev pub is_refused : Link → Bool
is_refused begin_fails = true
is_refused _ = false

-- `steps > 0 && len(rolled) >= steps`.
abbrev pub is_enough : ℤ → ℕ → Bool
is_enough (pos n) k = ltb 0 n && leb n k
is_enough (negsuc n) k = false

abbrev pub down_name : String → String
down_name name = append (trim_suffix name ".sql") ".down.sql"

-- `order by name desc`, with the order of texts in the database's collation.
unfoldable pub insert_latest : (String → String → Bool) → String → List String → List String
insert_latest text_before s [] = s ∷ []
insert_latest text_before s (t ∷ ts) =
    let rest = insert_latest text_before s ts in if text_before s t then t ∷ rest else s ∷ t ∷ ts

unfoldable pub latest_names : (String → String → Bool) → Dict String → List String
unfolding insert_latest
latest_names text_before [] = []
latest_names text_before ((name, sum) ∷ rows) =
    insert_latest text_before name (latest_names text_before rows)

-- `exec` runs a script on the tables, `none` when the database refuses it; `sha256_hex` is the
-- checksum.
module _ {S : Type 0} (exec : String → S → Option S) (sha256_hex : String → String) where
  abbrev pub run_script : String → String → Schema S → Outcome (Schema S)
  run_script name script db = elim (exec script db.state) [
    | none ↦ failed (script_fails name)
    | some state ↦
        done (record { state = state; applied = insert name (sha256_hex script) db.applied })
  ]

  unfoldable pub migrate_file : String → Option String → Schema S → Outcome (Schema S)
  migrate_file name none db = failed (unreadable name)
  migrate_file name (some script) db = elim (lookup name db.applied) [
    | some old ↦ if old == sha256_hex script then done db else failed (mismatch name)
    | none ↦ run_script name script db
  ]

  unfoldable pub migrate_files : List Entry → List String → Schema S → Outcome (Schema S)
  unfolding migrate_file read_file
  migrate_files dir [] db = done db
  migrate_files dir (name ∷ names) db = elim (migrate_file name (read_file name dir) db) [
    | failed e ↦ failed e
    | done next ↦ migrate_files dir names next
  ]

  -- The transaction: nothing of a migration that fails stays.
  abbrev pub finish : Link → Schema S → Outcome (Schema S) → Outcome (Unit {0}) × Schema S
  finish begin_fails db r = (failed no_connection, db)
  finish up db (done next) = (done tt, next)
  finish up db (failed e) = (failed e, db)
  finish commit_fails db (done next) = (failed no_connection, db)
  finish commit_fails db (failed e) = (failed e, db)
  finish ack_lost db (done next) = (failed no_connection, next)
  finish ack_lost db (failed e) = (failed e, db)

  unfoldable pub migrate : Link → Option (List Entry) → Schema S → Outcome (Unit {0}) × Schema S
  unfolding migrate_files script_names
  migrate link none db = (failed no_directory, db)
  migrate link (some dir) db = finish link db (migrate_files dir (script_names dir) db)

  -- The names that were rolled back are answered with an error too.
  unfoldable pub roll_back :
      List Entry → ℤ → List String → List String → Schema S → List String × Outcome (Schema S)
  unfolding read_file
  roll_back dir steps [] rolled db = (rolled, done db)
  roll_back dir steps (name ∷ names) rolled db = elim (is_enough steps (length rolled)) [
    | true ↦ (rolled, done db)
    | false ↦ elim (read_file (down_name name) dir) [
      | none ↦ (rolled, failed (missing_down (down_name name)))
      | some script ↦ elim (exec script db.state) [
        | none ↦ (rolled, failed (script_fails (down_name name)))
        | some state ↦
            roll_back dir steps names (rolled ++ name ∷ [])
              (record { state = state; applied = erase name db.applied })
      ]
    ]
  ]

  abbrev pub settle_rolled :
      Link
      → Schema S
      → List String × Outcome (Schema S)
      → (List String × Outcome (Unit {0})) × Schema S
  settle_rolled link db (rolled, r) =
      let (outcome, next) = finish link db r in
      ((if is_refused link then [] else rolled, outcome), next)

  unfoldable pub rollback :
      (String → String → Bool)
      → Link
      → List Entry
      → ℤ
      → Schema S
      → (List String × Outcome (Unit {0})) × Schema S
  unfolding roll_back latest_names
  rollback text_before link dir steps db =
      settle_rolled link db (roll_back dir steps (latest_names text_before db.applied) [] db)
