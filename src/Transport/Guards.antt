-- ===== src/Transport/Guards.antt =====
-- Backend/transport/http.go: ServeHTTP refuses what it should before a route is run.
use Prim.Native.String.{◌++◌ as append}
use g_server.Common.{
  Bool, ◌||◌, true, false, arith, ◌≡◌, ◌≢◌, String, ◌==◌, text_key, number_key, List, inl, inr,
  Bool-cases, Option-cases, some, none, [], ◌∷◌, length, Option, ℕ, ◌<◌,
}
use g_server.Transport.Internal.{IsRefused, route-IsRefused}
use g_server.Transport.Serve.{
  header_refusal, body_refusal, declared_refusal, read_and_route, serve_http, route, State,
  max_body, rate,
}
use g_server.Libs.{Libs}
use g_server.Transport.Message.{Response, Request, Decoder, Context}
use g_server.Transport.Number.{parse_uint}
use g_server.Usecase.Service.{Service}
use g_server.Store.{Db}
use g_server.Transport.Peer.{Handler, may_connect}
use g_server.Transport.Access.{is_internal, service_authorized_iff}
use g_server.Transport.Credential.{scheme}

abbrev pub is_refusal : Response → Bool
is_refusal out = out.status == 400 || out.status == 413

declared_refusal-status :
    (o : Option ℕ) (more : List String) {out : Response}
    → declared_refusal o more ≡ some out
    → is_refusal out ≡ true
declared_refusal-status none more e = ground arith
declared_refusal-status (some n) [] e = ground arith
declared_refusal-status (some n) (v ∷ more) e = ground arith

pub header_refusal-status :
    (values : List String) {out : Response}
    → header_refusal values ≡ some out
    → is_refusal out ≡ true
unfolding header_refusal
header_refusal-status [] e = absurd (ground arith)
header_refusal-status (v ∷ more) e = declared_refusal-status (parse_uint v) more e

pub body_refusal-status :
    (r : Request) {out : Response} → body_refusal r ≡ some out → is_refusal out ≡ true
unfolding body_refusal
body_refusal-status r e = ground arith

module _ (lib : Libs) (decoder : Decoder) (keys : List String) (service : Service)
    (cx : Context) where
  -- What is refused by the routes is refused by the handler.
  pub read-IsRefused :
      (r : Request) (db : Db)
      → IsRefused
          (route lib decoder keys service cx r db).0
          db
          (route lib decoder keys service cx r db).1
      → IsRefused
          (read_and_route lib decoder keys service cx r db).0
          db
          (read_and_route lib decoder keys service cx r db).1
  unfolding read_and_route
  read-IsRefused r db v = elim (Option-cases (header_refusal r.content_lengths)) [
    | inr (out, e) ↦ ground (arith, header_refusal-status r.content_lengths {out = out} e)
    | inl plain ↦ elim (Option-cases (body_refusal r)) [
      | inr (out, e) ↦ ground (arith, body_refusal-status r {out = out} e)
      | inl fits ↦ ground (arith, v)
    ]
  ]

  pub serve-IsRefused :
      (h : Handler) (r : Request) (st st' : State) (out : Response)
      → serve_http lib decoder keys service cx h r st ≡ some (out, st')
      → IsRefused
          (read_and_route lib decoder keys service cx r st.db).0
          st.db
          (read_and_route lib decoder keys service cx r st.db).1
      → IsRefused out st.db st'.db
  unfolding serve_http
  serve-IsRefused h r st st' out e v = elim (Bool-cases (may_connect h r.tls r.address)) [
    | inr plain ↦ ground (arith, plain)
    | inl secure ↦ elim (Option-cases (rate r cx.clock st.windows)) [
      | inl panic ↦ absurd (ground arith)
      | inr ((true, ws), e') ↦ ground (arith, secure, e', v)
      | inr ((false, ws), e') ↦ ground (arith, secure, e')
    ]
  ]

  -- A request for an internal path that does not carry the service token is not served and changes
  -- nothing in the database, whatever its method and body.
  pub internal_needs_token :
      (h : Handler) (r : Request) (st st' : State) (out : Response)
      → is_internal r.path ≡ true
      → r.authorization ≢ append scheme service.service_token
      → serve_http lib decoder keys service cx h r st ≡ some (out, st')
      → IsRefused out st.db st'.db
  internal_needs_token h r st st' out i no_token e = serve-IsRefused h r st st' out e (
      read-IsRefused r st.db (
        route-IsRefused lib decoder keys service cx r st.db i
          (ground (arith, no_token, service_authorized_iff r.authorization service.service_token))))

  -- A body of more than 8192 bytes is not served and changes nothing in the database, whatever the
  -- request says of its length.
  pub large_body-IsRefused :
      (h : Handler) (r : Request) (st st' : State) (out : Response)
      → max_body < length r.body
      → serve_http lib decoder keys service cx h r st ≡ some (out, st')
      → IsRefused out st.db st'.db
  unfolding read_and_route body_refusal
  large_body-IsRefused h r st st' out large e =
      serve-IsRefused h r st st' out e (elim (Option-cases (header_refusal r.content_lengths)) [
        | inr (x, e) ↦ ground (arith, header_refusal-status r.content_lengths {out = x} e)
        | inl plain ↦ ground (arith, large)
      ])

  -- What is answered with 200 comes from a route.
  pub serve-route :
      (h : Handler) (r : Request) (st st' : State) (out : Response)
      → serve_http lib decoder keys service cx h r st ≡ some (out, st')
      → (out.status == 200) ≡ true
      → route lib decoder keys service cx r st.db ≡ (out, st'.db)
  unfolding serve_http read_and_route
  serve-route h r st st' out e good = elim (Bool-cases (may_connect h r.tls r.address)) [
    | inr plain ↦ absurd (ground (arith, e, good, plain))
    | inl secure ↦ elim (Option-cases (rate r cx.clock st.windows)) [
      | inl panic ↦ absurd (ground (arith, e, secure, panic))
      | inr ((false, ws), e') ↦ absurd (ground (arith, e, secure, e', good))
      | inr ((true, ws), e') ↦ elim (Option-cases (header_refusal r.content_lengths)) [
        | inr (x, k) ↦ absurd (
            ground
              (arith, e, secure, e', good, k, header_refusal-status r.content_lengths {out = x} k))
        | inl plain ↦ elim (Option-cases (body_refusal r)) [
          | inr (x, k) ↦
              absurd
                (ground (arith, e, secure, e', good, plain, k, body_refusal-status r {out = x} k))
          | inl fits ↦ ground (arith, e, secure, e', plain, fits)
        ]
      ]
    ]
  ]
