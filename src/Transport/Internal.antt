-- ===== src/Transport/Internal.antt =====
-- Backend/transport/http.go: the internal routes are for holders of the service token.
use g_server.Common.{
  starts_with, refl, true, false, arith, ◌≡◌, String, ◌==◌, text_key, number_key, ◌||◌, List,
}
use g_server.Transport.Access.{differs, is_internal, limit_of-is_guarded}
use g_server.Transport.Message.{Response, Decoder, Context, Request, denied}
use g_server.Libs.{Libs}
use g_server.Store.{Db}
use g_server.Usecase.Service.{Service}
use g_server.Transport.Serve.{internal_routes, post_routes, route, limit_of}
use g_server.Transport.Credential.{service_authorized}

-- The request was not served: no 200, and the database is as it was.
pub record IsRefused (out : Response) (before after : Db) : Type 0 where
  pub status : (out.status == 200) ≡ false
  pub unchanged : after ≡ before

module _ (lib : Libs) (decoder : Decoder) (keys : List String) (service : Service)
    (cx : Context) where
  internal_routes-denied :
      (r : Request) (db : Db)
      → (starts_with r.path "/v1/internal/progress/" || starts_with r.path "/v1/internal/rooms/")
        ≡ true
      → service_authorized r.authorization service.service_token ≡ false
      → internal_routes lib decoder keys service cx r db ≡ (denied, db)
  unfolding internal_routes
  internal_routes-denied r db h k = ground arith

  post_routes-denied :
      (r : Request) (db : Db)
      → is_internal r.path ≡ true
      → (limit_of r.path == 0) ≡ false
      → service_authorized r.authorization service.service_token ≡ false
      → post_routes lib decoder keys service cx r db ≡ (denied, db)
  unfolding post_routes
  post_routes-denied r db i n k = ground (
    arith,
    differs is_internal r.path "/v1/auth/login" i refl,
    limit_of-is_guarded r.path n,
    internal_routes-denied r db,
  )

  pub route-IsRefused :
      (r : Request) (db : Db)
      → is_internal r.path ≡ true
      → service_authorized r.authorization service.service_token ≡ false
      → IsRefused
          (route lib decoder keys service cx r db).0
          db
          (route lib decoder keys service cx r db).1
  unfolding route
  route-IsRefused r db i k = ground (
    arith,
    differs is_internal r.path "/health/live" i refl,
    differs is_internal r.path "/health/ready" i refl,
    differs is_internal r.path "/v1/maps" i refl,
    post_routes-denied r db i,
  )
