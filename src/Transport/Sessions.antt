-- ===== src/Transport/Sessions.antt =====
-- Backend/transport/http.go: the routes of the players are for holders of an open session.
use g_server.Common.{
  starts_with, find, refl, true, false, arith, ◌≡◌, String, ◌==◌, text_key, number_key, ◌||◌, ◌&&◌,
  not, List, Bool, inl, inr, Option-cases, some, none, text_iff, subst, Option, ℕ, sym,
}
use g_server.Transport.Internal.{IsRefused}
use g_server.Store.{
  unavailable, up, begin_fails, commit_fails, ack_lost, SessionRow, Db, Error, err, Link, settle,
  then_do, or_raise, no_rows, pure,
}
use g_server.Libs.{Libs}
use g_server.Transport.Message.{
  Decoder, Context, Exchange, db_error, refuse, Request, response, maps, Response,
}
use g_server.Usecase.Service.{Service, auth}
use g_server.Transport.Routes.Players.{with_session, maps_route, player_routes}
use g_server.Transport.Credential.{bearer}
use g_server.Store.Session.{find_session, is_session, is_open}
use g_server.Domain.{Session}
use g_server.Transport.Serve.{internal_routes, route, post_routes, State, serve_http}
use g_server.Transport.Peer.{Handler}
use g_server.Usecase.Maps.{map_packages}
use g_server.Transport.Guards.{serve-IsRefused, read-IsRefused}

abbrev pub needs_session : String → Bool
needs_session path =
    path == "/v1/auth/logout"
    || path == "/v1/tickets"
    || path == "/v1/rooms/allocate"
    || path == "/v1/maps"

abbrev pub is_found : Option SessionRow → Bool
is_found none = false
is_found (some r) = true

-- What holds of the four paths.
on_each :
    (p : String → Bool) (path : String)
    → needs_session path ≡ true
    → (p "/v1/auth/logout" && p "/v1/tickets" && p "/v1/rooms/allocate" && p "/v1/maps") ≡ true
    → p path ≡ true
on_each p path h k = ground (
  arith,
  text_iff path "/v1/auth/logout",
  text_iff path "/v1/tickets",
  text_iff path "/v1/rooms/allocate",
  text_iff path "/v1/maps",
)

abbrev is_outside : String → Bool
is_outside path =
    not (starts_with path "/v1/internal/progress/")
    && not (starts_with path "/v1/internal/rooms/")
    && not (path == "/v1/auth/login")
    && not (path == "/v1/internal/tickets/redeem")
    && not (path == "/health/live")
    && not (path == "/health/ready")

-- A call that fails leaves the database, whatever the connection does.
pub settle-fails :
    {A : Type 0} (link : Link) (db : Db) (e : Error)
    → (x : Error) × settle {A = A} link db (err e, db) ≡ (err x, db)
settle-fails up db e = (e, refl)
settle-fails begin_fails db e = (unavailable, refl)
settle-fails commit_fails db e = (e, refl)
settle-fails ack_lost db e = (e, refl)

is_found-none : (o : Option SessionRow) → is_found o ≡ false → o ≡ none
is_found-none none h = refl
is_found-none (some r) h = absurd (ground arith)

pub db_error-status : (e : Error) → ((db_error e).status == 200) ≡ false
unfolding db_error
db_error-status e = ground arith

module _ (lib : Libs) (decoder : Decoder) (keys : List String) (service : Service)
    (cx : Context) where
  -- The header names a token whose session is neither revoked nor over.
  abbrev pub has_session : String → Db → Bool
  has_session authorization db = elim (bearer authorization) [
    | none ↦ false
    | some token ↦
        is_found (find (λ r. is_session (lib.sha256_hex token) r && is_open cx.now r) db.sessions)
  ]

  auth-denied :
      (token : String) (db : Db)
      → find (λ r. is_session (lib.sha256_hex token) r && is_open cx.now r) db.sessions ≡ none
      → (e : Error) × auth lib (cx.link 0) token cx.now db ≡ (err e, db)
  unfolding auth find_session
  auth-denied token db h =
      subst
        (λ found.
          (e : Error) × settle {A = Session} (cx.link 0) db (
              then_do (or_raise no_rows found db)
                (λ row. pure (record { player_id = row.player_id; token_hash = row.token_hash })))
            ≡ (err e, db))
        (sym h) (settle-fails (cx.link 0) db no_rows)

  with_session-IsRefused :
      (body : List ℕ) (authorization : String) (next : Session → Exchange) (db : Db)
      → has_session authorization db ≡ false
      → IsRefused
          (with_session lib decoder service cx body authorization next db).0
          db
          (with_session lib decoder service cx body authorization next db).1
  unfolding with_session
  with_session-IsRefused body authorization next db h = elim (Option-cases (bearer authorization)) [
    | inl absent ↦ ground arith
    | inr (token, e) ↦
        let (x, d) = auth-denied token db (is_found-none _ (ground (arith, h, e))) in
        ground (arith, e, d, db_error-status x)
  ]

  maps_route-IsRefused :
      (body : List ℕ) (method authorization : String) (db : Db)
      → has_session authorization db ≡ false
      → IsRefused
          (maps_route lib decoder service cx body keys method authorization db).0
          db
          (maps_route lib decoder service cx body keys method authorization db).1
  unfolding maps_route
  maps_route-IsRefused body method authorization db h = ground (
    arith,
    with_session-IsRefused body authorization
        (λ s. refuse (response 200 (maps (map_packages keys)))) db h,
  )

  player_routes-IsRefused :
      (body : List ℕ) (path authorization : String) (db : Db)
      → has_session authorization db ≡ false
      → IsRefused
          (player_routes lib decoder service cx body path authorization db).0
          db
          (player_routes lib decoder service cx body path authorization db).1
  unfolding player_routes
  player_routes-IsRefused body path authorization db h =
      with_session-IsRefused body authorization _ db h

  internal_routes-IsRefused :
      (r : Request) (db : Db)
      → needs_session r.path ≡ true
      → has_session r.authorization db ≡ false
      → IsRefused
          (internal_routes lib decoder keys service cx r db).0
          db
          (internal_routes lib decoder keys service cx r db).1
  unfolding internal_routes
  internal_routes-IsRefused r db p h = ground (
    arith,
    on_each is_outside r.path p refl,
    player_routes-IsRefused r.body r.path r.authorization db h,
  )

  session_route-IsRefused :
      (r : Request) (db : Db)
      → needs_session r.path ≡ true
      → has_session r.authorization db ≡ false
      → IsRefused
          (route lib decoder keys service cx r db).0
          db
          (route lib decoder keys service cx r db).1
  unfolding route post_routes
  session_route-IsRefused r db p h = ground (
    arith,
    on_each is_outside r.path p refl,
    maps_route-IsRefused r.body r.method r.authorization db h,
    internal_routes-IsRefused r db p h,
  )

  -- A request to log out, for a ticket, for a place in a room or for the maps, whose header names no
  -- token of a session that is neither revoked nor over, is not served and changes nothing in the
  -- database.
  pub session_needed :
      (h : Handler) (r : Request) (st st' : State) (out : Response)
      → needs_session r.path ≡ true
      → has_session r.authorization st.db ≡ false
      → serve_http lib decoder keys service cx h r st ≡ some (out, st')
      → IsRefused out st.db st'.db
  session_needed h r st st' out p no_session e =
      serve-IsRefused lib decoder keys service cx h r st st' out e (
        read-IsRefused lib decoder keys service cx r st.db
          (session_route-IsRefused r st.db p no_session))
