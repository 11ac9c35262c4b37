-- ===== src/Transport/Limiter/Sweep.antt =====
-- The table of the rate limiter: what a sweep and an insertion do to it.
use g_server.Common.{
  inl, inr, Option-cases, refl, [], ◌∷◌, none, some, true, false, Bool, if◌then◌else◌, arith, count,
  length, ℕ, List, ◌≡◌, ◌≤◌, lookup, String, insert, text_iff, lookup-insert, Option, Option-cases,
  inl, inr,
}
use g_server.Transport.Limiter.{is_stale, Windows, last, sweep}
use g_server.Transport.Limiter.Window.{
  is_clean, is_empty, is_ordered, last-some, stale_all, window, is_recent,
}

abbrev pub is_spent : ℕ → List ℕ → Bool
is_spent now v = elim (last v) [ none ↦ false | some t ↦ is_stale now t ]

abbrev unspent : ℕ → Option (List ℕ) → Option (List ℕ)
unspent now none = none
unspent now (some v) = if is_spent now v then none else some v

-- What a sweep leaves where no window is empty.
unfoldable pub swept : ℕ → Windows → Windows
swept now [] = []
swept now ((k, v) ∷ ws) = let rest = swept now ws in if is_spent now v then rest else (k, v) ∷ rest

pub sweep-swept :
    (t now : ℕ) (ws : Windows) → is_clean t ws ≡ true → sweep now ws ≡ some (swept now ws)
unfolding sweep swept is_clean
sweep-swept t now [] c = refl
sweep-swept t now ((k, v) ∷ ws) c =
    let (l, e) = last-some v (ground arith) in ground (arith, e, sweep-swept t now ws)

pub lookup-swept :
    (t now : ℕ) (k : String) (ws : Windows)
    → is_clean t ws ≡ true
    → lookup k (swept now ws) ≡ unspent now (lookup k ws)
unfolding swept is_clean lookup
lookup-swept t now k [] c = refl
lookup-swept t now k ((j, v) ∷ ws) c = ground (arith, text_iff j k, lookup-swept t now k ws)

pub swept-is_clean :
    (t now : ℕ) (ws : Windows) → is_clean t ws ≡ true → is_clean t (swept now ws) ≡ true
unfolding swept is_clean
swept-is_clean t now [] c = refl
swept-is_clean t now ((k, v) ∷ ws) c =
    ground (arith, swept-is_clean t now ws, lookup-swept t now k ws)

pub swept-length : (now : ℕ) (ws : Windows) → length (swept now ws) ≤ length ws
unfolding swept
swept-length now [] = omega arith
swept-length now ((k, v) ∷ ws) = ground (arith, swept-length now ws)

ordered_later : (t now : ℕ) (v : List ℕ) → is_ordered t v ≡ true → t ≤ now → is_ordered now v ≡ true
unfolding is_ordered
ordered_later t now [] o h = refl
ordered_later t now (x ∷ []) o h = ground arith
ordered_later t now (x ∷ y ∷ v) o h = ground (arith, ordered_later t now (y ∷ v))

pub clean_later :
    (t now : ℕ) (ws : Windows) → is_clean t ws ≡ true → t ≤ now → is_clean now ws ≡ true
unfolding is_clean
clean_later t now [] c h = refl
clean_later t now ((k, v) ∷ ws) c h = ground (arith, clean_later t now ws, ordered_later t now v)

pub insert-is_clean :
    (t : ℕ) (k : String) (v : List ℕ) (ws : Windows)
    → is_clean t ws ≡ true
    → is_empty v ≡ false
    → is_ordered t v ≡ true
    → is_clean t (insert k v ws) ≡ true
unfolding is_clean insert lookup
insert-is_clean t k v [] c e o = ground arith
insert-is_clean t k v ((j, w) ∷ ws) c e o =
    ground (arith, text_iff j k, text_iff k j, insert-is_clean t k v ws, lookup-insert k j v ws)

pub lookup-is_ordered :
    (t : ℕ) (k : String) (ws : Windows) {v : List ℕ}
    → is_clean t ws ≡ true
    → lookup k ws ≡ some v
    → is_ordered t v ≡ true × is_empty v ≡ false
unfolding is_clean lookup
lookup-is_ordered t k [] c e = absurd (ground arith)
lookup-is_ordered t k ((j, w) ∷ ws) {v} c e = ground (arith, lookup-is_ordered t k ws {v = v})

-- A window that a sweep deletes has nothing recent.
pub spent_count :
    (t now u : ℕ) (v : List ℕ)
    → is_ordered t v ≡ true
    → is_spent now v ≡ true
    → now ≤ u
    → count (is_recent u) v ≡ 0
spent_count t now u v o s h = elim (Option-cases (last v)) [
  | inl e ↦ absurd (ground arith)
  | inr (l, e) ↦ (stale_all now u t l v o e (ground arith) h).0
]

pub window-swept :
    (t now u : ℕ) (k : String) (ws : Windows)
    → is_clean t ws ≡ true
    → now ≤ u
    → count (is_recent u) (window k (swept now ws)) ≡ count (is_recent u) (window k ws)
unfolding count
window-swept t now u k ws c h = elim (Option-cases (lookup k ws)) [
  | inl e ↦ ground (arith, lookup-swept t now k ws)
  | inr (v, e) ↦
      ground
        (arith, lookup-swept t now k ws, lookup-is_ordered t k ws {v = v}, spent_count t now u v)
]
