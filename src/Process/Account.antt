-- ===== src/Process/Account.antt =====
-- Backend/main.go with Backend/usecase/service.go: an account that seed has written is one to log in
-- with.
use g_server.Common.{
  String, Bool, true, some, List, [], ◌∷◌, ◌≡◌, refl, arith, Option-cases, inl, inr, find, update,
  find-append_new, find-update, find-find, ◌==◌, text_key, text_refl, find_holds, ◌++◌,
}
use g_server.Store.{
  begin_fails, commit_fails, ack_lost, Db, PlayerRow, ok, up, player_exists, Link, settle, Result,
  err,
}
use g_server.Process.Seed.{upsert_player, upsert_row}
use g_server.Process.Commands.{settled, finished}
use g_server.Store.Migration.{Schema}

abbrev pub is_named : String → PlayerRow → Bool
is_named username r = r.username == username

-- The account is there, with the hash of its password.
pub record HasAccount (username hash : String) (db : Db) : Type 0 where
  pub row : PlayerRow
  pub found : find (is_named username) db.players ≡ some row
  pub hashed : row.password_hash ≡ hash
  pub exists : player_exists row.player_id db ≡ true

-- Only a call that is served well answers well.
settle-ok :
    {A : Type 0} (link : Link) (db db' : Db) (r : Result A × Db) (a : A)
    → settle link db r ≡ (ok a, db')
    → r ≡ (ok a, db')
settle-ok up db db' (ok x, after) a e = e
settle-ok up db db' (err x, after) a e = absurd (ground arith)
settle-ok begin_fails db db' r a e = absurd (ground arith)
settle-ok commit_fails db db' (ok x, after) a e = absurd (ground arith)
settle-ok commit_fails db db' (err x, after) a e = absurd (ground arith)
settle-ok ack_lost db db' (ok x, after) a e = absurd (ground arith)
settle-ok ack_lost db db' (err x, after) a e = absurd (ground arith)

found_exists :
    (username : String) (db : Db) (row : PlayerRow)
    → find (is_named username) db.players ≡ some row
    → player_exists row.player_id db ≡ true
found_exists username db row found =
    let (other, e) =
      find-find (is_named username) (λ r. r.player_id == row.player_id) db.players found
        (text_refl row.player_id) in
    ground (arith, e)

abbrev rehash : String → PlayerRow → PlayerRow
rehash hash r = record r { password_hash = hash }

rehashed :
    (username hash : String) (players : List PlayerRow) {row : PlayerRow}
    → find (is_named username) players ≡ some row
    → find (is_named username) (update (is_named username) (rehash hash) players)
      ≡ some (rehash hash row)
rehashed username hash players {row} known = ground (
  arith,
  known,
  find_holds (is_named username) players {x = row} known,
  find-update (is_named username) (is_named username) (rehash hash) players (λ r. refl),
)

upsert_row-HasAccount :
    (id username hash : String) (db db' : Db)
    → upsert_row id username hash db ≡ (ok tt, db')
    → HasAccount username hash db' × (db'.sessions ≡ db.sessions)
unfolding upsert_row
upsert_row-HasAccount id username hash db db' e =
    elim (Option-cases (find (is_named username) db.players)) [
      | inr (row, known) ↦
          let players : db'.players ≡ update (is_named username) (rehash hash) db.players =
            ground (arith, e, known) in
          let found : find (is_named username) db'.players ≡ some (rehash hash row) =
            rw players (rehashed username hash db.players known) in
          (
            record {
              row = rehash hash row;
              found = found;
              hashed = refl;
              exists = found_exists username db' (rehash hash row) found;
            },
            ground (arith, e, known),
          )
      | inl new ↦
          let row : PlayerRow = record {
            player_id = id;
            username = username;
            password_hash = hash;
          } in
          let players : db'.players ≡ db.players ++ row ∷ [] = ground (arith, e, new) in
          let found : find (is_named username) db'.players ≡ some row =
            rw players
              (find-append_new (is_named username) db.players row new (text_refl username)) in
          (
            record {
              row = row;
              found = found;
              hashed = refl;
              exists = found_exists username db' row found;
            },
            ground (arith, e, new),
          )
    ]

pub upsert_player-HasAccount :
    (link : Link) (id username hash : String) (db db' : Db)
    → upsert_player link id username hash db ≡ (ok tt, db')
    → HasAccount username hash db' × (db'.sessions ≡ db.sessions)
unfolding upsert_player
upsert_player-HasAccount link id username hash db db' e =
    upsert_row-HasAccount id username hash db db'
      (settle-ok link db db' (upsert_row id username hash db) tt e)

pub settled-ok :
    (message : String) (s s' : Schema Db) (r : Result (Unit {0}) × Db)
    → settled message s r ≡ (finished, s')
    → r ≡ (ok tt, s'.state)
settled-ok message s s' (ok tt, db) e = ground (arith, e)
settled-ok message s s' (err x, db) e = absurd (ground (arith, e))
