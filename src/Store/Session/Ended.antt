-- ===== src/Store/Session/Ended.antt =====
-- A session that has been revoked stays so, whoever signs in and out afterwards.
use g_server.Common.{
  ℕ, Bool, ◌+◌, ◌*◌, String, ◌≡◌, ◌&&◌, none, some, List, [], ◌∷◌, ◌++◌, arith, ◌==◌, text_key,
  number_key, text_iff, find, update, find-update, find-append_old, find_holds, find-append_other,
  inl, inr, Option-cases, Bool-cases, refl, Option, ◌∙◌,
}
use g_server.Store.{Db, Link, SessionRow, player_exists, seconds}
use g_server.Store.Keeps.{settle_keeps}
use g_server.Store.Session.{
  is_session, is_null, is_open, session_of, create_session, revoke_session,
}

abbrev pub unrevoked : String → List SessionRow → Option SessionRow
unrevoked hash sessions = find (λ r. is_session hash r && is_null r.revoked_at) sessions

-- There is a session with this hash, and each is revoked.
pub record IsEnded (hash : String) (sessions : List SessionRow) : Type 0 where
  pub row : SessionRow
  pub found : find (is_session hash) sessions ≡ some row
  pub revoked : unrevoked hash sessions ≡ none

-- What is revoked is open at no time.
pub unrevoked-is_open :
    (hash : String) (now : ℕ) (sessions : List SessionRow)
    → unrevoked hash sessions ≡ none
    → find (λ r. is_session hash r && is_open now r) sessions ≡ none
unfolding find
unrevoked-is_open hash now [] h = refl
unrevoked-is_open hash now (r ∷ rs) h = ground (arith, h, unrevoked-is_open hash now rs)

unrevoked-update :
    (hash other : String) (now : ℕ) (sessions : List SessionRow)
    → unrevoked hash sessions ≡ none
    → unrevoked hash (update (is_session other) (λ r. record r { revoked_at = some now }) sessions)
      ≡ none
unfolding find update
unrevoked-update hash other now [] h = refl
unrevoked-update hash other now (r ∷ rs) h = ground (arith, h, unrevoked-update hash other now rs)

update-IsEnded :
    (hash other : String) (now : ℕ) (sessions : List SessionRow)
    → IsEnded hash sessions
    → IsEnded hash (update (is_session other) (λ r. record r { revoked_at = some now }) sessions)
update-IsEnded hash other now sessions h =
    let f : SessionRow → SessionRow = λ r. record r { revoked_at = some now } in
    elim (Bool-cases (is_session other h.row)) [
      | inl same ↦ record {
        row = f h.row;
        found = ground (
          arith,
          same,
          h.found,
          find-update (is_session hash) (is_session other) f sessions (λ r. refl),
        );
        revoked = unrevoked-update hash other now sessions h.revoked;
      }
      | inr differs ↦ record {
        row = h.row;
        found = ground (
          arith,
          differs,
          h.found,
          find-update (is_session hash) (is_session other) f sessions (λ r. refl),
        );
        revoked = unrevoked-update hash other now sessions h.revoked;
      }
    ]

-- A row that passes two tests is found by the first.
pub find-first_test :
    (p q : SessionRow → Bool) (sessions : List SessionRow) {x : SessionRow}
    → find (λ r. p r && q r) sessions ≡ some x
    → (y : SessionRow) × (find p sessions ≡ some y)
unfolding find
find-first_test p q [] h = absurd (ground arith)
find-first_test p q (r ∷ rs) {x} h = elim (Bool-cases (p r)) [
  | inl passes ↦ (r, ground (arith, passes))
  | inr fails ↦
      let (y, found) = find-first_test p q rs {x = x} (ground (arith, fails, h)) in
      (y, ground (arith, fails, found))
]

revoked-none :
    (hash : String) (now : ℕ) (sessions : List SessionRow)
    → unrevoked hash (update (is_session hash) (λ r. record r { revoked_at = some now }) sessions)
      ≡ none
unfolding find update
revoked-none hash now [] = refl
revoked-none hash now (r ∷ rs) = ground (arith, revoked-none hash now rs)

-- A revocation that is written ends the session.
pub update-IsEnded_new :
    (hash : String) (now : ℕ) (sessions : List SessionRow) {row : SessionRow}
    → find (is_session hash) sessions ≡ some row
    → IsEnded hash (update (is_session hash) (λ r. record r { revoked_at = some now }) sessions)
update-IsEnded_new hash now sessions {row} found =
    let f : SessionRow → SessionRow = λ r. record r { revoked_at = some now } in
    record {
      row = f row;
      found = ground (
        arith,
        found,
        find_holds (is_session hash) sessions {x = row} found,
        find-update (is_session hash) (is_session hash) f sessions (λ r. refl),
      );
      revoked = revoked-none hash now sessions;
    }

-- A new session has a hash of its own.
append-IsEnded :
    (hash : String) (x : SessionRow) (sessions : List SessionRow)
    → find (is_session x.token_hash) sessions ≡ none
    → IsEnded hash sessions
    → IsEnded hash (sessions ++ x ∷ [])
append-IsEnded hash x sessions fresh h = elim (Bool-cases (x.token_hash == hash)) [
  | inl same ↦ absurd (ground (arith, same, fresh, h.found, text_iff x.token_hash hash))
  | inr differs ↦ record {
    row = h.row;
    found = find-append_old (is_session hash) sessions x h.found;
    revoked =
        find-append_other (λ r. is_session hash r && is_null r.revoked_at) sessions x
          (ground (arith, differs))
        ∙ h.revoked;
  }
]

create_session-IsEnded :
    (link : Link) (player other hash : String) (now : ℕ) (db : Db)
    → IsEnded hash db.sessions
    → IsEnded hash (create_session link player other now db).1.sessions
unfolding create_session
create_session-IsEnded link player other hash now db h =
    settle_keeps (λ d. IsEnded hash d.sessions) link db _ h
      (λ a e. elim (Option-cases (session_of other db)) [
        | inl fresh ↦ elim (Bool-cases (player_exists player db)) [
          | inl known ↦
              let row : SessionRow = record {
                player_id = player;
                token_hash = other;
                expires_at = now + seconds (15 * 60);
                revoked_at = none;
              } in
              rw fresh (rw known (append-IsEnded hash row db.sessions fresh h))
          | inr unknown ↦ rw fresh (rw unknown h)
        ]
        | inr (old, taken) ↦ rw taken h
      ])

revoke_session-IsEnded :
    (link : Link) (other hash : String) (now : ℕ) (db : Db)
    → IsEnded hash db.sessions
    → IsEnded hash (revoke_session link other now db).1.sessions
unfolding revoke_session
revoke_session-IsEnded link other hash now db h =
    settle_keeps (λ d. IsEnded hash d.sessions) link db _ h
      (λ a e. update-IsEnded hash other now db.sessions h)

-- What may happen to the sessions; a call that leaves them is `elsewhere`.
pub data Step (db db' : Db) : Type 0 where
  signs_in :
      (link : Link) (player hash : String) (now : ℕ)
      → db' ≡ (create_session link player hash now db).1
      → Step db db'
  signs_out :
      (link : Link) (hash : String) (now : ℕ)
      → db' ≡ (revoke_session link hash now db).1
      → Step db db'
  elsewhere : db'.sessions ≡ db.sessions → Step db db'

pub data History (db : Db) : Db → Type 0 where
  here : History db db
  next : {d e : Db} → History db d → Step d e → History db e

Step-IsEnded :
    {db db' : Db} (hash : String)
    → Step db db'
    → IsEnded hash db.sessions
    → IsEnded hash db'.sessions
Step-IsEnded {db} hash (signs_in link player other now e) h =
    rw e (create_session-IsEnded link player other hash now db h)
Step-IsEnded {db} hash (signs_out link other now e) h =
    rw e (revoke_session-IsEnded link other hash now db h)
Step-IsEnded hash (elsewhere e) h = rw e h

-- A session that has ended stays so.
pub History-IsEnded :
    {db db' : Db} (hash : String)
    → History db db'
    → IsEnded hash db.sessions
    → IsEnded hash db'.sessions
History-IsEnded hash here h = h
History-IsEnded hash (next before step) h = Step-IsEnded hash step (History-IsEnded hash before h)
