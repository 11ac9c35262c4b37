-- ===== src/Transport/Limiter/Rate.antt =====
-- The rate that the limiter enforces, over any sequence of requests.
use g_server.Common.{
  count-le, text_key, arith, refl, [], some, count, ℕ, ◌≡◌, ◌≤◌, String, text_iff, Bool, Bool-cases,
  inl, inr, ◌&&◌, lookup, subst, ◌==◌,
}
use g_server.Transport.Limiter.{Windows, slot}
use g_server.Transport.Limiter.Window.{is_clean, is_recent}
use g_server.Transport.Limiter.Decision.{Log, IsLogged, granted, log_after, slot-IsLogged}

-- The tables that requests lead to, from the empty one: the time does not fall, and each key has
-- one limit.
pub data IsServed (limit : String → ℕ) : ℕ → Log → Windows → Type 0 where
  starts : IsServed limit 0 [] []
  serves :
      {t : ℕ} {log : Log} {ws : Windows} (key : String) (now : ℕ) (b : Bool) (ws' : Windows)
      → IsServed limit t log ws
      → t ≤ now
      → slot key (limit key) now ws ≡ some (b, ws')
      → IsServed limit now (log_after b key now log) ws'

empty-IsLogged : IsLogged 0 [] []
unfolding is_clean count lookup
empty-IsLogged = record { clean = refl; logged = λ k u h. refl; small = omega arith }

pub IsServed-IsLogged :
    (limit : String → ℕ) {t : ℕ} {log : Log} {ws : Windows}
    → IsServed limit t log ws
    → IsLogged t log ws
IsServed-IsLogged limit starts = empty-IsLogged
IsServed-IsLogged limit (serves {t} {log} {ws} key now b ws' h l e) =
    let (c, ws'', done, _, v) =
      slot-IsLogged key (limit key) t now log ws (IsServed-IsLogged limit h) l in
    let same : c ≡ b = ground (arith, done, e) in
    let there : ws'' ≡ ws' = ground (arith, done, e) in
    subst (λ (c : Bool). IsLogged now (log_after c key now log) ws') same
      (subst (λ (w : Windows). IsLogged now (log_after c key now log) w) there v)

granted_later : (k : String) (t u : ℕ) (log : Log) → t ≤ u → granted k u log ≤ granted k t log
granted_later k t u log h =
    count-le (λ (g : String × ℕ). g.0 == k && is_recent u g.1)
      (λ (g : String × ℕ). g.0 == k && is_recent t g.1) log (λ g e. ground (arith, e, h))

-- Whatever requests come, at any time from the last one on, at most `limit key` of a key have been
-- let through within the minute before.
pub rate_limited :
    (limit : String → ℕ) {t : ℕ} {log : Log} {ws : Windows} (k : String) (u : ℕ)
    → IsServed limit t log ws
    → t ≤ u
    → granted k u log ≤ limit k
unfolding count
rate_limited limit k u starts h = omega arith
rate_limited limit k u (serves {t} {log} {ws} key now b ws' s l e) h =
    let (c, ws'', done, why, _) =
      slot-IsLogged key (limit key) t now log ws (IsServed-IsLogged limit s) l in
    let same : c ≡ b = ground (arith, done, e) in
    let before = rate_limited limit k u s (omega arith) in
    elim (Bool-cases b) [
      | inr refused ↦ ground (arith, refused, before)
      | inl let_in ↦ elim (Bool-cases (key == k)) [
        | inr other ↦ ground (arith, let_in, other, before)
        | inl mine ↦
            ground (
              arith,
              let_in,
              mine,
              same,
              why,
              before,
              text_iff key k,
              granted_later key now u log h,
            )
      ]
    ]
