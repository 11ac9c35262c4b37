-- ===== src/Transport/Flow.antt =====
-- Backend/transport/http.go: sequences of requests to one Handler, and its rate limiter through them.
use g_server.Common.{
  true, false, ℕ, ◌≤◌, Bool, false, not, ◌&&◌, some, List, [], String, ltb, ◌==◌, number_key,
  text_key, ◌≡◌, arith, Option-cases, inl, inr, ◌⊎◌, Bool-cases, subst, sym, ◌<◌,
}
use g_server.Transport.Serve.{
  State, serve_http, read_and_route, header_refusal, body_refusal, key_of, limit_of, rate,
}
use g_server.Transport.Guards.{header_refusal-status, body_refusal-status}
use g_server.Transport.Limiter.{Windows, slot}
use g_server.Transport.Limiter.Decision.{Log, log_after, slot-IsLogged, granted}
use g_server.Transport.Status.Serve.{route-is_reply}
use g_server.Transport.Message.{Response, Request, Decoder, Context}
use g_server.Transport.Peer.{Handler, may_connect}
use g_server.Libs.{Libs}
use g_server.Usecase.Service.{Service}
use g_server.Store.{Db}
use g_server.Transport.Limiter.Rate.{starts, serves, IsServed, IsServed-IsLogged, rate_limited}
use g_server.Transport.Keys.{limit_of_key, limit_of_key-key_of}

-- A request for a path with a limit that was answered past the connection and the limiter.
abbrev pub is_let_in : Handler → Request → Response → Bool
is_let_in h r out =
    may_connect h r.tls r.address && ltb 0 (limit_of r.path) && not (out.status == 429)

module _ (lib : Libs) (decoder : Decoder) (keys : List String) (service : Service)
    (h : Handler) where
  -- The windows of a Handler that has just been made, or that has served requests one by one, with
  -- the log of those that were let in; the clock does not go back, and the database is whatever it is.
  pub data Runs : ℕ → Log → Windows → Type 0 where
    opened : Runs 0 [] []
    answered :
        {t : ℕ} {log : Log} {ws : Windows} (cx : Context) (r : Request) (db : Db) (out : Response)
        (st' : State)
        → Runs t log ws
        → t ≤ cx.clock
        → serve_http lib decoder keys service cx h r (record { db = db; windows = ws })
          ≡ some (out, st')
        → Runs cx.clock (log_after (is_let_in h r out) (key_of r) cx.clock log) st'.windows

  module _ (cx : Context) where
    read-status :
        (r : Request) (db : Db)
        → ((read_and_route lib decoder keys service cx r db).0.status == 429) ≡ false
    unfolding read_and_route
    read-status r db = elim (Option-cases (header_refusal r.content_lengths)) [
      | inr (out, e) ↦ ground (arith, header_refusal-status r.content_lengths {out = out} e)
      | inl plain ↦ elim (Option-cases (body_refusal r)) [
        | inr (out, e) ↦ ground (arith, body_refusal-status r {out = out} e)
        | inl fits ↦ ground (arith, (route-is_reply lib decoder keys service cx r db).2)
      ]
    ]

    -- What serving a request does to the windows: nothing, or a call of `slot`.
    serve-slot :
        (r : Request) (db : Db) (ws : Windows) (out : Response) (st' : State)
        → serve_http lib decoder keys service cx h r (record { db = db; windows = ws })
          ≡ some (out, st')
        → ((st'.windows ≡ ws) × (is_let_in h r out ≡ false))
          ⊎ (slot (key_of r) (limit_of_key (key_of r)) cx.clock ws
              ≡ some (is_let_in h r out, st'.windows))
    unfolding serve_http rate
    serve-slot r db ws out st' e = elim (Bool-cases (may_connect h r.tls r.address)) [
      | inr plain ↦ inl (ground (arith, e, plain))
      | inl secure ↦ elim (Bool-cases (limit_of r.path == 0)) [
        | inl free ↦ inl (ground (arith, e, secure, free))
        | inr limited ↦
            let same = limit_of_key-key_of r limited in
            elim (Option-cases (slot (key_of r) (limit_of r.path) cx.clock ws)) [
              | inl panic ↦ absurd (ground (arith, e, secure, limited, panic))
              | inr ((true, ws'), done) ↦
                  inr (rw same (ground (arith, e, secure, limited, done, read-status r db)))
              | inr ((false, ws'), done) ↦ inr (rw same (ground (arith, e, secure, limited, done)))
            ]
      ]
    ]

  Runs-IsServed :
      {t : ℕ} {log : Log} {ws : Windows}
      → Runs t log ws
      → (u : ℕ) × (u ≤ t) × IsServed limit_of_key u log ws
  Runs-IsServed opened = (0, omega arith, starts)
  Runs-IsServed (answered {t} {log} {ws} cx r db out st' before later e) =
      let (u, earlier, served) = Runs-IsServed before in
      elim (serve-slot cx r db ws out st' e) [
        | inl (same, apart) ↦ (
          u,
          omega arith,
          subst (IsServed limit_of_key u (log_after (is_let_in h r out) (key_of r) cx.clock log))
              (sym same) (rw apart served),
        )
        | inr call ↦ (
          cx.clock,
          omega arith,
          serves (key_of r) cx.clock (is_let_in h r out) st'.windows served (omega arith) call,
        )
      ]

  -- Whatever requests a Handler has served, from its start on and with its clock never going back,
  -- at most the limit of a path from one client were let in within the minute before any later time.
  pub Runs-limited :
      {t : ℕ} {log : Log} {ws : Windows} (r : Request) (u : ℕ)
      → Runs t log ws
      → t ≤ u
      → 0 < limit_of r.path
      → granted (key_of r) u log ≤ limit_of r.path
  Runs-limited {log = log} r u before later limited =
      let (v, earlier, served) = Runs-IsServed before in
      subst (λ (n : ℕ). granted (key_of r) u log ≤ n)
        (limit_of_key-key_of r (ground (arith, limited)))
        (rate_limited limit_of_key (key_of r) u served (omega arith))

  -- A Handler never panics: after any sequence of requests from its start on, with its clock never
  -- going back, it answers the next request whatever that request and the database are.
  pub Runs-answers :
      {t : ℕ} {log : Log} {ws : Windows} (cx : Context) (r : Request) (db : Db)
      → Runs t log ws
      → t ≤ cx.clock
      → (out : Response) × (st' : State) × (serve_http lib decoder keys service cx h r
            (record { db = db; windows = ws })
          ≡ some (out, st'))
  unfolding serve_http rate
  Runs-answers {t} {log} {ws} cx r db before later =
      let (v, earlier, served) = Runs-IsServed before in
      let (b, ws', done, _, _) =
        slot-IsLogged (key_of r) (limit_of r.path) v cx.clock log ws
          (IsServed-IsLogged limit_of_key served) (omega arith) in
      elim (Option-cases
        (serve_http lib decoder keys service cx h r (record { db = db; windows = ws }))) [
          | inr ((out, st'), e) ↦ (out, st', e)
          | inl panic ↦ absurd (elim (Bool-cases b) [
            | inl let_in ↦ ground (arith, panic, done, let_in)
            | inr refused ↦ ground (arith, panic, done, refused)
          ])
        ]
