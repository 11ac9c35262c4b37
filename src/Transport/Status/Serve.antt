-- ===== src/Transport/Status/Serve.antt =====
-- The statuses of ServeHTTP: what each of its own refusals means.
use g_server.Common.{
  starts_with, if◌then◌else◌, [], ◌∷◌, refl, true, false, arith, ◌≡◌, String, ◌==◌, number_key,
  text_key, ◌||◌, not, List, Bool, inl, inr, Bool-cases, ℕ, ◌&&◌,
}
use g_server.Transport.Status.{
  Replies, is_reply, if-Replies, refuse-Replies, Libs, Decoder, Context, answer-Replies, Db,
  status_ok,
}
use g_server.Transport.Status.Players.{
  login_route-Replies, redeem_route-Replies, with_session-Replies, player_routes-Replies,
  room_routes-Replies,
}
use g_server.Transport.Serve.{limit_of, internal_routes, post_routes, route}
use g_server.Usecase.Service.{Service}
use g_server.Transport.Routes.Players.{health_route, maps_route}
use g_server.Transport.Message.{Request, denied, Exchange, refuse, failure, response, object, maps}
use g_server.Transport.Credential.{service_authorized}
use g_server.Transport.Status.Progress.{progress_routes-Replies}
use g_server.Domain.{text}
use g_server.Usecase.Maps.{map_packages}
use g_server.Store.Session.{ping}

-- A path that has a route.
abbrev pub is_routed : String → Bool
is_routed path =
    path == "/health/live"
    || path == "/health/ready"
    || path == "/v1/maps"
    || not (limit_of path == 0)

-- The method of its requests.
abbrev pub method_of : String → String
method_of path =
    if path == "/health/live" || path == "/health/ready" || path == "/v1/maps"
    then "GET"
    else "POST"

module _ (lib : Libs) (decoder : Decoder) (keys : List String) (service : Service)
    (cx : Context) where
  internal_routes-Replies : (r : Request) → Replies (internal_routes lib decoder keys service cx r)
  unfolding internal_routes
  internal_routes-Replies r =
      if-Replies (starts_with r.path "/v1/internal/progress/") _ _
        (if-Replies (service_authorized r.authorization service.service_token) _ _
          (progress_routes-Replies lib decoder cx r.body r.path _
            (player_routes-Replies lib decoder service cx r.body r.path r.authorization))
          (refuse-Replies denied refl))
        (if-Replies (starts_with r.path "/v1/internal/rooms/") _ _
          (if-Replies (service_authorized r.authorization service.service_token) _ _
            (room_routes-Replies lib decoder service cx r.body r.path) (refuse-Replies denied refl))
          (player_routes-Replies lib decoder service cx r.body r.path r.authorization))

  post_routes-Replies : (r : Request) → Replies (post_routes lib decoder keys service cx r)
  unfolding post_routes
  post_routes-Replies r =
      if-Replies (r.path == "/v1/auth/login") _ _
        (login_route-Replies lib decoder service cx r.body)
        (if-Replies (r.path == "/v1/internal/tickets/redeem") _ _
          (if-Replies (service_authorized r.authorization service.service_token) _ _
            (redeem_route-Replies lib decoder service cx r.body) (refuse-Replies denied refl))
          (internal_routes-Replies r))

  get-Replies :
      (get : Bool) (x : Exchange)
      → get ≡ true
      → Replies x
      → Replies (if not get then refuse (failure 405 "Method Not Allowed") else x)
  get-Replies true x e h = h
  get-Replies false x e h = absurd (ground arith)

  health_route-Replies :
      (r : Request)
      → (r.method == "GET") ≡ true
      → Replies (health_route lib decoder service cx r.body r.path r.method)
  unfolding health_route
  health_route-Replies r get = get-Replies (r.method == "GET") _ get (
      if-Replies (r.path == "/health/ready") _ _
        (answer-Replies (λ _. failure 503 "not ready")
          (λ _. response 200 (object (("status", text "ready") ∷ []))) (ping (cx.link 0))
          (λ _. refl) (λ _. refl))
        (refuse-Replies (response 200 status_ok) refl))

  maps_route-Replies :
      (r : Request)
      → (r.method == "GET") ≡ true
      → Replies (maps_route lib decoder service cx r.body keys r.method r.authorization)
  unfolding maps_route
  maps_route-Replies r get = get-Replies (r.method == "GET") _ get (
      with_session-Replies lib decoder service cx r.body r.authorization _
        (λ _. refuse-Replies (response 200 (maps (map_packages keys))) refl))

  wrong_health :
      (r : Request) (db : Db)
      → (r.method == "GET") ≡ false
      → (health_route lib decoder service cx r.body r.path r.method db).0.status ≡ 405
  unfolding health_route
  wrong_health r db h = ground arith

  wrong_maps :
      (r : Request) (db : Db)
      → (r.method == "GET") ≡ false
      → (maps_route lib decoder service cx r.body keys r.method r.authorization db).0.status ≡ 405
  unfolding maps_route
  wrong_maps r db h = ground arith

  health_cases :
      (r : Request) (db : Db)
      → let n = (health_route lib decoder service cx r.body r.path r.method db).0.status in
        (if r.method == "GET" then is_reply n else n == 405) ≡ true
  unfolding Replies
  health_cases r db = elim (Bool-cases (r.method == "GET")) [
    | inl get ↦ rw get (health_route-Replies r get db)
    | inr other ↦ rw other (ground (arith, wrong_health r db other))
  ]

  maps_cases :
      (r : Request) (db : Db)
      → let n =
          (maps_route lib decoder service cx r.body keys r.method r.authorization db).0.status in
        (if r.method == "GET" then is_reply n else n == 405) ≡ true
  unfolding Replies
  maps_cases r db = elim (Bool-cases (r.method == "GET")) [
    | inl get ↦ rw get (maps_route-Replies r get db)
    | inr other ↦ rw other (ground (arith, wrong_maps r db other))
  ]

  post_cases :
      (r : Request) (db : Db)
      → is_reply (post_routes lib decoder keys service cx r db).0.status ≡ true
  unfolding Replies
  post_cases r db = post_routes-Replies r db

  abbrev pub status_of : Request → Db → ℕ
  status_of r db = (route lib decoder keys service cx r db).0.status

  -- Past the guards of the connection, the rate and the size: 404 is the answer just where the path
  -- has no route, 405 just where it has one with another method, and any other answer is 200, 401,
  -- 409, 422 or 503.
  pub route-is_reply :
      (r : Request) (db : Db)
      → ((status_of r db == 404) ≡ not (is_routed r.path))
        × ((status_of r db == 405) ≡ (is_routed r.path && not (r.method == method_of r.path)))
        × ((status_of r db == 404 || status_of r db == 405 || is_reply (status_of r db)) ≡ true)
  unfolding route
  route-is_reply r db = ground (arith, health_cases r db, maps_cases r db, post_cases r db)
