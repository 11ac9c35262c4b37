-- ===== src/Transport/Limiter/Window.antt =====
-- The windows of the rate limiter: ordered times, and what sweeping and dropping keep of them.
use g_server.Common.{
  Option, none, some, refl, ◌++◌, refl, [], ◌∷◌, none, some, true, false, Bool, not, ◌&&◌, arith,
  count, length, ℕ, List, ◌≡◌, ◌≤◌, leb, lookup, String,
}
use g_server.Transport.Limiter.{is_stale, Windows, last, drop_stale}

abbrev pub is_empty : List ℕ → Bool
is_empty [] = true
is_empty (t ∷ v) = false

abbrev pub first_or : ℕ → List ℕ → ℕ
first_or t [] = t
first_or t (u ∷ v) = u

-- The times do not fall, and none is after `t`.
unfoldable pub is_ordered : ℕ → List ℕ → Bool
is_ordered t [] = true
is_ordered t (u ∷ v) = leb u (first_or t v) && is_ordered t v

abbrev pub is_absent : Option (List ℕ) → Bool
is_absent none = true
is_absent (some v) = false

-- No window is empty, each is in order, and no key is twice in the table.
unfoldable pub is_clean : ℕ → Windows → Bool
is_clean t [] = true
is_clean t ((k, v) ∷ ws) =
    not (is_empty v) && is_ordered t v && is_absent (lookup k ws) && is_clean t ws

abbrev pub is_recent : ℕ → ℕ → Bool
is_recent now t = not (is_stale now t)

abbrev pub window : String → Windows → List ℕ
window k ws = elim (lookup k ws) [ none ↦ [] | some v ↦ v ]

pub last-some : (v : List ℕ) → is_empty v ≡ false → (t : ℕ) × last v ≡ some t
unfolding last
last-some [] h = absurd (ground arith)
last-some (t ∷ []) h = (t, refl)
last-some (t ∷ u ∷ v) h = last-some (u ∷ v) refl

first_le : (t : ℕ) (v : List ℕ) → is_ordered t v ≡ true → first_or t v ≤ t
unfolding is_ordered
first_le t [] h = omega arith
first_le t (u ∷ v) h = ground (arith, h, first_le t v)

-- Where the latest time is stale, all are.
pub stale_all :
    (now u t last_time : ℕ) (v : List ℕ)
    → is_ordered t v ≡ true
    → last v ≡ some last_time
    → is_stale now last_time ≡ true
    → now ≤ u
    → count (is_recent u) v ≡ 0 × first_or t v ≤ last_time
unfolding is_ordered last count
stale_all now u t l [] o e s h = absurd (ground arith)
stale_all now u t l (x ∷ []) o e s h = ground arith
stale_all now u t l (x ∷ y ∷ v) o e s h = ground (arith, stale_all now u t l (y ∷ v))

pub drop_stale-ordered :
    (now t : ℕ) (v : List ℕ) → is_ordered t v ≡ true → is_ordered t (drop_stale now v) ≡ true
unfolding is_ordered drop_stale
drop_stale-ordered now t [] o = refl
drop_stale-ordered now t (x ∷ v) o = ground (arith, drop_stale-ordered now t v)

pub drop_stale-count :
    (now u : ℕ) (v : List ℕ)
    → now ≤ u
    → count (is_recent u) (drop_stale now v) ≡ count (is_recent u) v
unfolding drop_stale count
drop_stale-count now u [] h = refl
drop_stale-count now u (x ∷ v) h = ground (arith, drop_stale-count now u v)

-- A window whose first time is recent has recent times only.
recent_all :
    (now t : ℕ) (v : List ℕ)
    → is_ordered t v ≡ true
    → is_recent now (first_or t v) ≡ true
    → count (is_recent now) v ≡ length v
unfolding is_ordered count
recent_all now t [] o r = refl
recent_all now t (x ∷ []) o r = ground arith
recent_all now t (x ∷ y ∷ v) o r = ground (arith, recent_all now t (y ∷ v))

pub drop_stale-length :
    (now t : ℕ) (v : List ℕ)
    → is_ordered t v ≡ true
    → length (drop_stale now v) ≡ count (is_recent now) v
unfolding is_ordered drop_stale count
drop_stale-length now t [] o = refl
drop_stale-length now t (x ∷ v) o =
    ground (arith, drop_stale-length now t v, recent_all now t (x ∷ v))

pub is_ordered-append :
    (t now : ℕ) (v : List ℕ)
    → is_ordered t v ≡ true
    → t ≤ now
    → is_ordered now (v ++ now ∷ []) ≡ true
unfolding is_ordered
is_ordered-append t now [] o h = ground arith
is_ordered-append t now (x ∷ []) o h = ground arith
is_ordered-append t now (x ∷ y ∷ v) o h = ground (arith, is_ordered-append t now (y ∷ v))
