-- ===== src/Process/Login.antt =====
-- Backend/main.go with Backend/usecase/service.go: a login after seed.
use g_server.Process.Account.{HasAccount, upsert_player-HasAccount, settled-ok}
use g_server.Common.{
  String, Bool, true, some, List, [], ◌∷◌, ◌≡◌, refl, arith, Option-cases, inl, inr, find,
  find-append_new, find-find, ◌==◌, text_key, text_refl, find_holds, ◌++◌, Option, ℕ, none, ap,
  ◌&&◌, ◌+◌, false, ◌*◌,
}
use g_server.Store.{Db, ok, up, player_exists, Link, SessionRow, seconds}
use g_server.Process.Seed.{upsert_player, Bytes, id_of}
use g_server.Libs.{Libs}
use g_server.Process.Commands.{
  World, run, settled, provision, run_seed, finished, account_of, command_of, Ending, name_of,
}
use g_server.Store.Migration.{Schema}
use g_server.Usecase.Service.{login, auth}
use g_server.Store.Session.{
  find_player, create_session, find_session, session_of, is_session, is_open,
}

find-none :
    (hash : String) (now : ℕ) (sessions : List SessionRow)
    → find (is_session hash) sessions ≡ none
    → find (λ r. is_session hash r && is_open now r) sessions ≡ none
find-none hash now sessions h =
    elim (Option-cases (find (λ r. is_session hash r && is_open now r) sessions)) [
      | inl absent ↦ absent
      | inr (r, found) ↦
          let holds =
            find_holds (λ (r : SessionRow). is_session hash r && is_open now r) sessions {x = r}
              found in
          let (z, other) =
            find-find (λ r. is_session hash r && is_open now r) (is_session hash) sessions {x = r}
              found (ground (arith, holds)) in
          absurd (ground (arith, h, other))
    ]

abbrev new_session : String → String → ℕ → SessionRow
new_session player hash now = record {
  player_id = player;
  token_hash = hash;
  expires_at = now + seconds (15 * 60);
  revoked_at = none;
}

abbrev with_new_session : SessionRow → Db → Db
with_new_session r db = record db { sessions = db.sessions ++ r ∷ [] }

module _ (lib : Libs) (exec : String → Db → Option Db) (w : World) where
  -- What a seed that ends well has done.
  settled-HasAccount :
      (link : Link) (id username hash : String) (s s' : Schema Db)
      → settled "seed failed" s (upsert_player link id username hash s.state) ≡ (finished, s')
      → HasAccount username hash s'.state × (s'.state.sessions ≡ s.state.sessions)
  settled-HasAccount link id username hash s s' e =
      upsert_player-HasAccount link id username hash s.state s'.state
        (settled-ok "seed failed" s s' (upsert_player link id username hash s.state) e)

  provision-HasAccount :
      (username : String) (hash : Option String) (b : Option Bytes) (s s' : Schema Db)
      → provision lib exec w username hash b s ≡ (finished, s')
      → (h : String) × (hash ≡ some h)
        × HasAccount username h s'.state
        × (s'.state.sessions ≡ s.state.sessions)
  provision-HasAccount username none b s s' e = absurd (ground arith)
  provision-HasAccount username (some h) none s s' e = absurd (ground arith)
  provision-HasAccount username (some h) (some b) s s' e =
      let (account, same) = settled-HasAccount (w.link 0) (id_of b) username h s s' e in
      (h, refl, account, same)

  abbrev is_quiet : Ending → Bool
  is_quiet finished = true
  is_quiet _ = false

  -- With the word seed, run that ends well is run_seed.
  run-seed :
      (s : Schema Db) (username : String)
      → w.args ≡ "seed" ∷ username ∷ []
      → is_quiet (run lib exec w s).0 ≡ true
      → run lib exec w s ≡ run_seed lib exec w s
  unfolding run
  run-seed s username a q =
      let word = ap command_of a in
      ground (
        arith,
        q,
        ap (λ cmd. cmd == "serve") word,
        ap (λ cmd. cmd == "migrate") word,
        ap (λ cmd. cmd == "seed") word,
      )

  run_seed-HasAccount :
      (s s' : Schema Db) (username : String)
      → w.args ≡ "seed" ∷ username ∷ []
      → run lib exec w s ≡ (finished, s')
      → (h : String) × (w.create_hash (w.getenv "G0_TEST_PASSWORD") ≡ some h)
        × HasAccount username h s'.state
        × (s'.state.sessions ≡ s.state.sessions)
  unfolding run_seed
  run_seed-HasAccount s s' username a e =
      elim (Option-cases (account_of w.args (w.getenv "G0_TEST_PASSWORD"))) [
        | inl invalid ↦ absurd (ground (arith, run-seed s username a, e, invalid))
        | inr (name, valid) ↦
            let same : name ≡ username = ground (arith, ap name_of a, valid) in
            provision-HasAccount username (w.create_hash (w.getenv "G0_TEST_PASSWORD")) w.random s
              s' (ground (arith, run-seed s username a, e, valid, same))
      ]

  create_session-auth :
      (db : Db) (player hash : String) (now : ℕ)
      → player_exists player db ≡ true
      → session_of hash db ≡ none
      → (db' : Db) × (create_session up player hash now db ≡ (ok tt, db'))
        × (find_session up hash now db'
            ≡ (ok (record { player_id = player; token_hash = hash }), db'))
  unfolding create_session find_session
  create_session-auth db player hash now there new = (
    with_new_session (new_session player hash now) db,
    ground (arith, there, new),
    ground (
      arith,
      find-append_new (λ r. is_session hash r && is_open now r) db.sessions
          (new_session player hash now) (find-none hash now db.sessions new)
          (ground (arith, text_refl hash)),
    ),
  )

  login-auth :
      (db : Db) (username password token hash : String) (now : ℕ)
      → (v : HasAccount username hash db) → lib.password_matches password hash ≡ true
      → session_of (lib.sha256_hex token) db ≡ none
      → (db' : Db) × (login lib up up username password token now db
          ≡ (ok (token, v.row.player_id), db'))
        × (auth lib up token now db'
            ≡ (ok (record { player_id = v.row.player_id; token_hash = lib.sha256_hex token }), db'))
  unfolding login find_player auth
  login-auth db username password token hash now v m new =
      let (db', created, known) =
        create_session-auth db v.row.player_id (lib.sha256_hex token) now v.exists new in
      (db', ground (arith, v.found, v.hashed, m, created), known)

  -- After a seed that ends well, a login with that name and password succeeds on a connection that
  -- works, and its token is then of an open session of that player: where the library accepts a
  -- password with the hash that it made of it, and no session has the token yet.
  pub seed_then_login :
      (s s' : Schema Db) (username token : String) (now : ℕ)
      → w.args ≡ "seed" ∷ username ∷ []
      → ((password hash : String)
          → w.create_hash password ≡ some hash
          → lib.password_matches password hash ≡ true)
      → session_of (lib.sha256_hex token) s.state ≡ none
      → run lib exec w s ≡ (finished, s')
      → (id : String) × (db : Db) × (login lib up up username
            (w.getenv "G0_TEST_PASSWORD")
            token
            now
            s'.state
          ≡ (ok (token, id), db))
        × (auth lib up token now db
            ≡ (ok (record { player_id = id; token_hash = lib.sha256_hex token }), db))
  seed_then_login s s' username token now a matches new e =
      let (hash, made, account, same) = run_seed-HasAccount s s' username a e in
      let (db, done_login, known) =
        login-auth s'.state username (w.getenv "G0_TEST_PASSWORD") token hash now account
          (matches _ hash made) (rw same new) in
      (account.row.player_id, db, done_login, known)
