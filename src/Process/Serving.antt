-- ===== src/Process/Serving.antt =====
-- Backend/main.go with Backend/transport/http.go: what holds of every server that run starts.
use Prim.Native.String.{len, ◌++◌ as append}
use g_server.Common.{
  ℕ, ℤ, pos, negsuc, ◌≤◌, ◌<◌, ◌≡◌, ◌≢◌, Bool, true, false, not, ◌&&◌, ◌||◌, Option, none, some,
  List, String, ltb, ◌==◌, number_key, text_key, arith, refl, subst, Option-cases, inl, inr, sym,
  text_ne, ◌∙◌, ap,
}
use text.Mathlib.TextLemmas.{append_cancel_left}
use g_server.Process.Commands.{
  World, run, run_migrate, run_seed, run_serve, settled, then_progress, provision, account_of,
  serving, Ending,
}
use g_server.Process.Config.{Config, port_of, no_certificate, config_for, atoi, env, Environment}
use g_server.Libs.{Libs}
use g_server.Store.{Db, Result, ok, err}
use g_server.Store.Migration.{Schema, Outcome, failed, done}
use g_server.Process.Seed.{Bytes}
use g_server.Transport.Message.{Decoder, Context, Request, Response}
use g_server.Transport.Serve.{serve_http, State}
use g_server.Transport.Peer.{may_connect}
use g_server.Transport.Access.{is_internal}
use g_server.Transport.Credential.{scheme}
use g_server.Transport.Internal.{IsRefused}
use g_server.Transport.Guards.{internal_needs_token}

abbrev pub is_secured : Config → Bool
is_secured cfg =
    (not (cfg.cert == "") && not (cfg.key == ""))
    || (cfg.cert == "" && cfg.key == "" && cfg.handler.allow_http)

pub record IsConfigured (getenv : Environment) (cfg : Config) : Type 0 where
  pub token : 32 ≤ len cfg.service.service_token
  pub lowest : 1 ≤ cfg.service.port
  pub highest : cfg.service.port ≤ 65535
  pub loopback : cfg.handler.allow_http ≡ (getenv "ALLOW_LOOPBACK_HTTP" == "1")
  pub docker : cfg.handler.allow_dev_docker_http ≡ (getenv "ALLOW_DEV_DOCKER_HTTP" == "1")
  pub secured : is_secured cfg ≡ true

abbrev pub is_serving : Ending → Bool
is_serving (serving cfg) = true
is_serving _ = false

port_of-bounds : (o : Option ℤ) {n : ℕ} → port_of o ≡ some n → (1 ≤ n) × (n ≤ 65535)
port_of-bounds none h = absurd (ground arith)
port_of-bounds (some (negsuc n)) h = absurd (ground arith)
port_of-bounds (some (pos n)) h = ground arith

module _ (lib : Libs) (exec : String → Db → Option Db) (w : World) where
  settled-is_serving :
      (message : String) (s : Schema Db) (r : Result (Unit {0}) × Db)
      → is_serving (settled message s r).0 ≡ false
  settled-is_serving message s (ok x, db) = refl
  settled-is_serving message s (err e, db) = refl

  then_progress-is_serving :
      (r : Outcome (Unit {0}) × Schema Db) → is_serving (then_progress lib exec w r).0 ≡ false
  then_progress-is_serving (failed e, s) = refl
  then_progress-is_serving (done x, s) = settled-is_serving "progress schema migration failed" s _

  provision-is_serving :
      (username : String) (hash : Option String) (b : Option Bytes) (s : Schema Db)
      → is_serving (provision lib exec w username hash b s).0 ≡ false
  provision-is_serving username none b s = refl
  provision-is_serving username (some hash) none s = refl
  provision-is_serving username (some hash) (some b) s = settled-is_serving "seed failed" s _

  run_migrate-is_serving : (s : Schema Db) → is_serving (run_migrate lib exec w s).0 ≡ false
  unfolding run_migrate
  run_migrate-is_serving s = then_progress-is_serving _

  run_seed-is_serving : (s : Schema Db) → is_serving (run_seed lib exec w s).0 ≡ false
  unfolding run_seed
  run_seed-is_serving s = elim (Option-cases (account_of w.args (w.getenv "G0_TEST_PASSWORD"))) [
    | inl invalid ↦ ground (arith, invalid)
    | inr (username, valid) ↦ ground (
      arith,
      valid,
      provision-is_serving username (w.create_hash (w.getenv "G0_TEST_PASSWORD")) w.random s,
    )
  ]

  config_for-IsConfigured :
      (port : ℕ)
      → ltb (len (w.getenv "ROOM_SERVICE_TOKEN")) 32 ≡ false
      → 1 ≤ port
      → port ≤ 65535
      → no_certificate w.getenv ≡ false
      → IsConfigured w.getenv (config_for w.getenv port)
  config_for-IsConfigured port long lowest highest k = ground (arith, long, lowest, highest, k)

  run_serve-IsConfigured :
      (s s' : Schema Db) (cfg : Config)
      → run_serve lib exec w s ≡ (serving cfg, s')
      → IsConfigured w.getenv cfg × s' ≡ s
  unfolding run_serve
  run_serve-IsConfigured s s' cfg e =
      elim (Option-cases (port_of (atoi (env w.getenv "ROOM_PORT" "7000")))) [
        | inl invalid ↦ absurd (ground (arith, e, invalid))
        | inr (port, valid) ↦
            let here : config_for w.getenv port ≡ cfg = ground (arith, e, valid) in
            let (lowest, highest) = port_of-bounds (atoi (env w.getenv "ROOM_PORT" "7000")) valid in
            let configured =
              config_for-IsConfigured port (ground (arith, e, valid)) lowest highest
                (ground (arith, e, valid)) in
            (subst (IsConfigured w.getenv) here configured, ground (arith, e, valid))
      ]

  -- A server that run starts has a service token of at least 32 bytes, a port from 1 to 65535, takes
  -- plain HTTP just as ALLOW_LOOPBACK_HTTP and ALLOW_DEV_DOCKER_HTTP say, and has either both files
  -- of TLS or neither with ALLOW_LOOPBACK_HTTP=1; the database is as it was.
  pub run-IsConfigured :
      (s s' : Schema Db) (cfg : Config)
      → run lib exec w s ≡ (serving cfg, s')
      → IsConfigured w.getenv cfg × s' ≡ s
  unfolding run
  run-IsConfigured s s' cfg e =
      run_serve-IsConfigured s s' cfg
        (ground (arith, e, run_migrate-is_serving s, run_seed-is_serving s))

  module _ (decoder : Decoder) (keys : List String) (s s' : Schema Db) (cfg : Config) where
    -- A server that run starts does not serve a request for an internal path whose token is shorter
    -- than 32 bytes, and nothing in the database changes.
    pub short_token-IsRefused :
        (cx : Context) (r : Request) (st st' : State) (out : Response) (token : String)
        → run lib exec w s ≡ (serving cfg, s')
        → is_internal r.path ≡ true
        → r.authorization ≡ append scheme token
        → len token < 32
        → serve_http lib decoder keys cfg.service cx cfg.handler r st ≡ some (out, st')
        → IsRefused out st.db st'.db
    short_token-IsRefused cx r st st' out token e i sent short served =
        internal_needs_token lib decoder keys cfg.service cx cfg.handler r st st' out i
          (λ same.
            let equal : token ≡ cfg.service.service_token =
              append_cancel_left scheme token cfg.service.service_token (sym sent ∙ same) in
            absurd (ground (arith, (run-IsConfigured s s' cfg e).0.token, short, ap len equal)))
          served

    -- Without ALLOW_LOOPBACK_HTTP=1 and ALLOW_DEV_DOCKER_HTTP=1, a server that run starts has both
    -- files of TLS, and answers 400 to every request without TLS and changes nothing.
    pub tls_needed :
        (cx : Context) (r : Request) (st st' : State) (out : Response)
        → run lib exec w s ≡ (serving cfg, s')
        → w.getenv "ALLOW_LOOPBACK_HTTP" ≢ "1"
        → w.getenv "ALLOW_DEV_DOCKER_HTTP" ≢ "1"
        → r.tls ≡ false
        → serve_http lib decoder keys cfg.service cx cfg.handler r st ≡ some (out, st')
        → ((cfg.cert == "") ≡ false) × ((cfg.key == "") ≡ false) × (out.status ≡ 400) × (st' ≡ st)
    unfolding serve_http may_connect
    tls_needed cx r st st' out e l d plain served =
        let configured = (run-IsConfigured s s' cfg e).0 in
        ground (
          arith,
          configured.secured,
          configured.loopback,
          configured.docker,
          text_ne (w.getenv "ALLOW_LOOPBACK_HTTP") "1" l,
          text_ne (w.getenv "ALLOW_DEV_DOCKER_HTTP") "1" d,
          plain,
          served,
        )
