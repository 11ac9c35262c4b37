-- ===== src/Tests/Migrations.antt =====
-- Two scripts that are applied and rolled back.
use g_server.Common.{
  refl, [], ◌∷◌, some, false, ◌≡◌, String, Option, pos, List, lookup, erase, insert, reverse,
  if◌then◌else◌, ◌||◌, ◌==◌, text_key, none, arith, ℕ, Bool, ltb, number_key,
}
use g_server.Store.Migration.Undo.{rollback-migrate, AreUndone, names_of}
use g_server.Tests.Sample.{is_before}
use g_server.Store.{up}
use g_server.Store.Migration.{
  Entry, Schema, done, migrate, rollback, migrate_files, migrate_file, script_names, read_file,
  roll_back, latest_names, insert_latest, insert_name,
}
use g_server.Store.Migration.Steps.{rollback_takes_latest, IsNewest}

abbrev file : String → String → Entry
file name script = record { name = name; is_dir = false; content = some script }

abbrev scripts : List Entry
scripts =
    file "002_b.sql" "b"
    ∷ file "001_a.down.sql" "un a"
    ∷ file "001_a.sql" "a"
    ∷ file "002_b.down.sql" "un b"
    ∷ []

-- The tables are the scripts that ran, the latest first; a checksum is the text.
abbrev runs : String → List String → Option (List String)
runs script ran = some (script ∷ ran)

abbrev checksum : String → String
checksum s = s

abbrev bare : Schema (List String)
bare = record { state = []; applied = [] }

abbrev migrated : Schema (List String)
migrated = record { state = "b" ∷ "a" ∷ []; applied = ("001_a.sql", "a") ∷ ("002_b.sql", "b") ∷ [] }

migrates : migrate runs checksum up (some scripts) bare ≡ (done tt, migrated)
unfolding migrate migrate_files migrate_file script_names insert_name read_file lookup insert
migrates = refl

abbrev reverted : Schema (List String)
reverted = record { state = "un b" ∷ "b" ∷ "a" ∷ []; applied = ("001_a.sql", "a") ∷ [] }

-- An order of texts: the first script, and then all others.
abbrev number_of : String → ℕ
number_of s = if s == "001_a.sql" then 1 else 2

abbrev by_number : String → String → Bool
by_number s t = ltb (number_of s) (number_of t)

rolls_back :
    rollback runs checksum by_number up scripts (pos 1) migrated
    ≡ (("002_b.sql" ∷ [], done tt), reverted)
unfolding rollback roll_back latest_names insert_latest read_file erase
rolls_back = refl

rollback_takes_latest_example :
    IsNewest runs checksum by_number (pos 1) ("002_b.sql" ∷ []) migrated reverted
rollback_takes_latest_example =
    rollback_takes_latest runs checksum by_number (λ s t h. ground (arith, h))
      (λ s t u h k. ground (arith, h, k)) scripts (pos 1) ("002_b.sql" ∷ []) migrated reverted
      rolls_back

-- A script that puts its text on the tables, and down scripts that take the top one off.
abbrev below_top : List String → Option (List String)
below_top [] = none
below_top (top ∷ ran) = some ran

abbrev undoes : String → List String → Option (List String)
undoes script ran =
    if script == "un a" || script == "un b" then below_top ran else some (script ∷ ran)

migrates_undoable : migrate undoes checksum up (some scripts) bare ≡ (done tt, migrated)
unfolding migrate migrate_files migrate_file script_names insert_name read_file lookup insert
migrates_undoable = refl

names_lem : script_names scripts ≡ "001_a.sql" ∷ "002_b.sql" ∷ []
unfolding script_names insert_name
names_lem = refl

scripts-AreUndone : AreUndone undoes checksum scripts ("001_a.sql" ∷ "002_b.sql" ∷ []) []
unfolding read_file
scripts-AreUndone = (
  "a",
  "un a",
  "a" ∷ [],
  refl,
  refl,
  refl,
  refl,
  ("b", "un b", "b" ∷ "a" ∷ [], refl, refl, refl, refl, tt),
)

rollback-migrate_example :
    (next : Schema (List String)) × (migrate undoes checksum up (some scripts) bare
      ≡ (done tt, next))
    × (names_of next.applied ≡ script_names scripts)
    × (rollback undoes checksum is_before up scripts (pos 0) next
        ≡ ((reverse (script_names scripts), done tt), bare))
rollback-migrate_example =
    rollback-migrate undoes checksum is_before scripts []
      (rw names_lem (((refl, refl), tt), (tt, tt))) (rw names_lem scripts-AreUndone)
