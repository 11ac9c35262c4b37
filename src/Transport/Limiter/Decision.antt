-- ===== src/Transport/Limiter/Decision.antt =====
-- The decision of the rate limiter, against the log of all requests that it has let through.
use g_server.Common.{
  count-append, refl, [], ◌∷◌, ◌++◌, some, true, false, Bool, not, ◌&&◌, ◌||◌, if◌then◌else◌, arith,
  count, length, ℕ, List, ◌≡◌, ◌≤◌, leb, ltb, lookup, String, insert, text_iff, lookup-insert, inl,
  inr, Option-cases, Bool-cases, ◌==◌, text_key, suc, ◌<◌,
}
use g_server.Transport.Limiter.{Windows, drop_stale, slot, table_size, take_slot}
use g_server.Transport.Limiter.Window.{
  is_clean, is_empty, is_ordered, is_absent, window, is_recent, drop_stale-ordered,
  drop_stale-count, drop_stale-length, is_ordered-append,
}
use g_server.Transport.Limiter.Sweep.{
  swept, sweep-swept, swept-is_clean, swept-length, clean_later, insert-is_clean, lookup-is_ordered,
  window-swept,
}

-- The requests let through, the latest first.
abbrev pub Log : Type 0
Log = List (String × ℕ)

-- How many of the key were let through within the minute before `now`.
abbrev pub granted : String → ℕ → Log → ℕ
granted key now = count (λ g. g.0 == key && is_recent now g.1)

-- The table tells of the recent past what the log does, and is within its size.
pub record IsLogged (t : ℕ) (log : Log) (ws : Windows) : Type 0 where
  pub clean : is_clean t ws ≡ true
  pub logged : (k : String) (u : ℕ) → t ≤ u → count (is_recent u) (window k ws) ≡ granted k u log
  pub small : length ws ≤ table_size

abbrev pub log_after : Bool → String → ℕ → Log → Log
log_after b key now log = if b then (key, now) ∷ log else log

insert-length :
    (k : String) (v : List ℕ) (ws : Windows)
    → length (insert k v ws) ≡ (if is_absent (lookup k ws) then suc (length ws) else length ws)
unfolding insert lookup
insert-length k v [] = refl
insert-length k v ((j, w) ∷ ws) = ground (arith, insert-length k v ws)

swept-IsLogged :
    (t now : ℕ) (log : Log) (ws : Windows)
    → IsLogged t log ws
    → t ≤ now
    → IsLogged now log (swept now ws)
swept-IsLogged t now log ws v h = record {
  clean = clean_later t now (swept now ws) (swept-is_clean t now ws v.clean) h;
  logged = λ k u l. ground (arith, window-swept t now u k ws v.clean l, v.logged k u (omega arith));
  small = omega (arith, v.small, swept-length now ws);
}

append-is_empty : (v : List ℕ) (t : ℕ) → is_empty (v ++ t ∷ []) ≡ false
append-is_empty [] t = refl
append-is_empty (x ∷ v) t = refl

-- One more request at the end of the window of its key.
insert-IsLogged :
    (key : String) (now : ℕ) (log : Log) (ws : Windows) (v : List ℕ)
    → IsLogged now log ws
    → is_ordered now v ≡ true
    → ((u : ℕ) → now ≤ u → count (is_recent u) v ≡ granted key u log)
    → length (insert key (v ++ now ∷ []) ws) ≤ table_size
    → IsLogged now ((key, now) ∷ log) (insert key (v ++ now ∷ []) ws)
unfolding count
insert-IsLogged key now log ws v w o same room = record {
  clean =
      insert-is_clean now key (v ++ now ∷ []) ws w.clean (append-is_empty v now)
        (is_ordered-append now now v o (omega arith));
  logged = λ k u l. ground (
    arith,
    w.logged k u l,
    same u l,
    text_iff key k,
    lookup-insert key k (v ++ now ∷ []) ws,
    count-append (is_recent u) v now,
  );
  small = room;
}

abbrev pick : Bool → Windows → Windows → Bool × Windows
pick b ws more = if b then (false, ws) else (true, more)

-- Refused, the table stays; let through, it has one request more.
branch :
    (b : Bool) (key : String) (now : ℕ) (log : Log) (ws more : Windows)
    → IsLogged now log ws
    → (b ≡ false → IsLogged now ((key, now) ∷ log) more)
    → ((pick b ws more).0 ≡ not b)
      × IsLogged now (log_after (pick b ws more).0 key now log) (pick b ws more).1
branch true key now log ws more w h = (refl, w)
branch false key now log ws more w h = (refl, h refl)

-- The request is let through just when fewer than `limit` were within the last minute.
taken :
    (key : String) (limit now : ℕ) (log : Log) (ws : Windows) (v : List ℕ)
    → IsLogged now log ws
    → window key ws ≡ v
    → is_ordered now v ≡ true
    → (is_absent (lookup key ws) ≡ true → length ws < table_size)
    → ((take_slot key limit now ws (drop_stale now v)).0 ≡ ltb (granted key now log) limit)
      × IsLogged now
          (log_after (take_slot key limit now ws (drop_stale now v)).0 key now log)
          (take_slot key limit now ws (drop_stale now v)).1
taken key limit now log ws v w e o room =
    let kept = drop_stale now v in
    let much : length kept ≡ granted key now log =
      ground (arith, drop_stale-length now now v o, w.logged key now (omega arith)) in
    let (answer, after) =
      branch (leb limit (length kept)) key now log ws (insert key (kept ++ now ∷ []) ws) w (λ _.
        insert-IsLogged key now log ws kept w (drop_stale-ordered now now v o)
          (λ u l. ground (arith, drop_stale-count now u v l, w.logged key u l))
          (ground (arith, room, w.small, insert-length key (kept ++ now ∷ []) ws))) in
    (ground (arith, answer, much), after)

-- The table has the key or a place for it.
abbrev pub has_place : String → Windows → Bool
has_place key ws = not (is_absent (lookup key ws)) || ltb (length ws) table_size

-- On a table that tells what the log does, at a time that is not earlier, the limiter does not
-- panic. It lets a request through just when the swept table has the key or a place for it and
-- fewer than `limit` of the key were let through within the last minute, and its table then tells
-- what the new log does.
pub slot-IsLogged :
    (key : String) (limit t now : ℕ) (log : Log) (ws : Windows)
    → IsLogged t log ws
    → t ≤ now
    → (b : Bool) × (ws' : Windows) × (slot key limit now ws ≡ some (b, ws'))
      × (b ≡ (has_place key (swept now ws) && ltb (granted key now log) limit))
      × IsLogged now (log_after b key now log) ws'
unfolding slot is_ordered
slot-IsLogged key limit t now log ws v h =
    let w = swept-IsLogged t now log ws v h in
    let e = sweep-swept t now ws v.clean in
    elim (Option-cases (lookup key (swept now ws))) [
      | inl absent ↦ elim (Bool-cases (leb table_size (length (swept now ws)))) [
        | inl full ↦ (false, swept now ws, ground (arith, e), ground arith, w)
        | inr free ↦
            let (answer, after) =
              taken key limit now log (swept now ws) [] w (ground (arith, absent)) refl
                (λ _. ground arith) in
            (_, _, ground (arith, e), ground (arith, answer), after)
      ]
      | inr (x, found) ↦
          let (answer, after) =
            taken key limit now log (swept now ws) x w (ground (arith, found))
              (lookup-is_ordered now key (swept now ws) w.clean found).0
              (λ k. absurd (ground arith)) in
          (_, _, ground (arith, e, found), ground (arith, answer), after)
    ]
