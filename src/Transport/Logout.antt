-- ===== src/Transport/Logout.antt =====
-- Backend/transport/http.go: a logout ends the session.
use g_server.Store.{
  up, begin_fails, commit_fails, ack_lost, ok, err, Error, Link, settle, Result, unavailable,
  then_do, no_rows, or_raise, pure,
}
use g_server.Common.{
  ℕ, String, Bool, true, not, ◌&&◌, Option, none, some, List, ◌≡◌, refl, sym, subst, arith, find,
  update, ◌==◌, text_key, number_key, inl, inr, starts_with, ◌⊎◌, find_holds, text_iff, false,
  Option-cases, ◌∙◌, ap,
}
use g_server.Transport.Sessions.{
  settle-fails, db_error-status, has_session, needs_session, session_needed,
}
use g_server.Transport.Routes.Players.{player_routes, with_session, logout_route}
use g_server.Store.{SessionRow, Db}
use g_server.Store.Session.Ended.{
  find-first_test, update-IsEnded_new, IsEnded, unrevoked-is_open, History, History-IsEnded,
}
use g_server.Libs.{Libs}
use g_server.Store.Session.{is_session, is_open, find_session, revoke_session}
use g_server.Transport.Message.{Decoder, Context, Request, Response, db_error, answer, response}
use g_server.Usecase.Service.{Service, auth}
use g_server.Transport.Serve.{route, post_routes, internal_routes, State, serve_http}
use g_server.Transport.Credential.{bearer}
use g_server.Domain.{Session}
use g_server.Transport.Routes.Progress.{status_ok}
use g_server.Transport.Peer.{Handler}
use g_server.Transport.Guards.{serve-route}
use g_server.Transport.Internal.{IsRefused}

abbrev is_logout : String → Bool
is_logout path =
    not (starts_with path "/v1/internal/progress/")
    && not (starts_with path "/v1/internal/rooms/")
    && not (path == "/v1/auth/login")
    && not (path == "/v1/internal/tickets/redeem")
    && not (path == "/health/live")
    && not (path == "/health/ready")
    && not (path == "/v1/maps")
    && path == "/v1/auth/logout"

settle-reads :
    {A : Type 0} (link : Link) (db : Db) (a : A)
    → ((e : Error) × (settle {A = A} link db (ok a, db) ≡ (err e, db)))
      ⊎ (settle {A = A} link db (ok a, db) ≡ (ok a, db))
settle-reads up db a = inr refl
settle-reads begin_fails db a = inl (unavailable, refl)
settle-reads commit_fails db a = inl (unavailable, refl)
settle-reads ack_lost db a = inl (unavailable, refl)

abbrev session_row : SessionRow → Session
session_row row = record { player_id = row.player_id; token_hash = row.token_hash }

abbrev read_row : Link → Db → Option SessionRow → Result Session × Db
read_row link db found =
    settle link db (then_do (or_raise no_rows found db) (λ row. pure (session_row row)))

read_row-cases :
    (link : Link) (db : Db) (found : Option SessionRow)
    → ((e : Error) × (read_row link db found ≡ (err e, db)))
      ⊎ ((row : SessionRow) × (found ≡ some row)
          × (read_row link db found ≡ (ok (session_row row), db)))
read_row-cases link db none = inl (settle-fails link db no_rows)
read_row-cases link db (some row) = elim (settle-reads link db (session_row row)) [
  | inl failed ↦ inl failed
  | inr read ↦ inr (row, refl, read)
]

-- Auth fails and leaves the database, or answers with the session of the token.
auth-cases :
    (lib : Libs) (link : Link) (token : String) (now : ℕ) (db : Db)
    → ((e : Error) × (auth lib link token now db ≡ (err e, db)))
      ⊎ ((s : Session) × (auth lib link token now db ≡ (ok s, db))
          × (s.token_hash ≡ lib.sha256_hex token)
          × (row : SessionRow) × (find (is_session (lib.sha256_hex token)) db.sessions ≡ some row))
unfolding auth find_session
auth-cases lib link token now db =
    let test : SessionRow → Bool = λ r. is_session (lib.sha256_hex token) r && is_open now r in
    elim (read_row-cases link db (find test db.sessions)) [
      | inl failed ↦ inl failed
      | inr (row, found, read) ↦
          let holds = find_holds test db.sessions {x = row} found in
          let there =
            find-first_test (is_session (lib.sha256_hex token)) (is_open now) db.sessions {x = row}
              found in
          inr (
            session_row row,
            read,
            ground (arith, holds, text_iff row.token_hash (lib.sha256_hex token)),
            there.0,
            there.1,
          )
    ]

-- A revocation that is answered well has been written.
revoked_well :
    (link : Link) (hash : String) (now : ℕ) (db : Db)
    → ((answer db_error (λ done. response 200 status_ok) (revoke_session link hash now) db).0.status
        == 200)
      ≡ true
    → (answer db_error
        (λ done. response 200 status_ok)
        (revoke_session link hash now)
        db).1.sessions
      ≡ update (is_session hash) (λ r. record r { revoked_at = some now }) db.sessions
unfolding revoke_session db_error
revoked_well up hash now db h = refl
revoked_well begin_fails hash now db h = absurd (ground (arith, h))
revoked_well commit_fails hash now db h = absurd (ground (arith, h))
revoked_well ack_lost hash now db h = refl

module _ (lib : Libs) (decoder : Decoder) (keys : List String) (service : Service)
    (cx : Context) where
  player_routes-logout :
      (body : List ℕ) (path authorization : String) (db : Db)
      → path ≡ "/v1/auth/logout"
      → player_routes lib decoder service cx body path authorization db
        ≡ with_session lib decoder service cx body authorization
            (logout_route lib decoder service cx body)
            db
  unfolding player_routes
  player_routes-logout body path authorization db p =
      subst
        (λ (s : String).
          player_routes lib decoder service cx body s authorization db
          ≡ with_session lib decoder service cx body authorization
              (logout_route lib decoder service cx body) db)
        (sym p) refl

  route-logout :
      (r : Request) (db db' : Db) (out : Response)
      → r.path ≡ "/v1/auth/logout"
      → route lib decoder keys service cx r db ≡ (out, db')
      → (out.status == 200) ≡ true
      → player_routes lib decoder service cx r.body r.path r.authorization db ≡ (out, db')
  unfolding route post_routes internal_routes
  route-logout r db db' out p e good =
      ground (arith, e, good, subst (λ (s : String). is_logout s ≡ true) (sym p) refl)

  abbrev revoke : List SessionRow → String → List SessionRow
  revoke sessions hash =
      update (is_session hash) (λ r. record r { revoked_at = some cx.now }) sessions

  logout_route-revokes :
      (body : List ℕ) (s : Session) (db : Db)
      → ((logout_route lib decoder service cx body s db).0.status == 200) ≡ true
      → (logout_route lib decoder service cx body s db).1.sessions ≡ revoke db.sessions s.token_hash
  unfolding logout_route
  logout_route-revokes body s db h = revoked_well (cx.link 1) s.token_hash cx.now db h

  -- What a logout that is answered with 200 has written.
  with_session-revokes :
      (body : List ℕ) (authorization token : String) (db : Db)
      → bearer authorization ≡ some token
      → let after =
          with_session lib decoder service cx body authorization
            (logout_route lib decoder service cx body)
            db in
        (after.0.status == 200) ≡ true
        → (after.1.sessions ≡ revoke db.sessions (lib.sha256_hex token))
          × (row : SessionRow) × (find (is_session (lib.sha256_hex token)) db.sessions ≡ some row)
  unfolding with_session
  with_session-revokes body authorization token db b good =
      elim (auth-cases lib (cx.link 0) token cx.now db) [
        | inl (e, denied) ↦ absurd (ground (arith, b, denied, good, db_error-status e))
        | inr (s, known, same, row, there) ↦
            (ground (arith, b, known, good, same, logout_route-revokes body s db), row, there)
      ]

  -- A logout that is answered with 200 has named a token, and has ended its session.
  logout-IsEnded :
      (h : Handler) (r : Request) (st st' : State) (out : Response)
      → r.path ≡ "/v1/auth/logout"
      → (out.status == 200) ≡ true
      → serve_http lib decoder keys service cx h r st ≡ some (out, st')
      → (token : String) × (bearer r.authorization ≡ some token)
        × IsEnded (lib.sha256_hex token) st'.db.sessions
  unfolding with_session
  logout-IsEnded h r st st' out p good e =
      let routed =
        route-logout r st.db st'.db out p
          (serve-route lib decoder keys service cx h r st st' out e good) good in
      let done = player_routes-logout r.body r.path r.authorization st.db p in
      elim (Option-cases (bearer r.authorization)) [
        | inl absent ↦ absurd (ground (arith, absent, sym done ∙ routed, good))
        | inr (token, b) ↦
            let all = sym done ∙ routed in
            let answered_well =
              subst (λ (x : Response × Db). (x.0.status == 200) ≡ true) (sym all) good in
            let (written, row, there) =
              with_session-revokes r.body r.authorization token st.db b answered_well in
            let sessions : st'.db.sessions ≡ revoke st.db.sessions (lib.sha256_hex token) =
              ap (λ (x : Response × Db). x.1.sessions) (sym all) ∙ written in
            (
              token,
              b,
              subst (IsEnded (lib.sha256_hex token)) (sym sessions) (
                  update-IsEnded_new (lib.sha256_hex token) cx.now st.db.sessions {row = row}
                    there),
            )
      ]

  -- After a logout that is answered with 200, whatever sessions are created and revoked and whatever
  -- else is done to the database afterwards, a request with the same header for anything that needs
  -- a session is not served and changes nothing in the database, at whatever time it comes.
  pub logout_ends_session :
      (next : Context) (h : Handler) (r r' : Request) (st st' later later' : State)
      (out out' : Response)
      → r.path ≡ "/v1/auth/logout"
      → serve_http lib decoder keys service cx h r st ≡ some (out, st')
      → (out.status == 200) ≡ true
      → History st'.db later.db
      → r'.authorization ≡ r.authorization
      → needs_session r'.path ≡ true
      → serve_http lib decoder keys service next h r' later ≡ some (out', later')
      → IsRefused out' later.db later'.db
  logout_ends_session next h r r' st st' later later' out out' p e good history same needed e' =
      let (token, b, ended) = logout-IsEnded h r st st' out p good e in
      let still = History-IsEnded (lib.sha256_hex token) history ended in
      let closed =
        unrevoked-is_open (lib.sha256_hex token) next.now later.db.sessions still.revoked in
      session_needed lib decoder keys service next h r' later later' out' needed
        (subst
          (λ (header : String). has_session lib decoder keys service next header later.db ≡ false)
          (sym same) (ground (arith, b, closed)))
        e'
