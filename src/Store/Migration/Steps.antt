-- ===== src/Store/Migration/Steps.antt =====
-- Rollback takes the latest migrations, as many as are asked for.
use g_server.Common.{
  zero, suc, negsuc, ap, arith, refl, [], ◌∷◌, ◌++◌, none, true, false, ◌≡◌, List, String, Option,
  lookup, erase, lookup-erase, length, ℤ, if◌then◌else◌, inl, inr, ◌⊎◌, Option-cases, Bool-cases,
  Bool, text_key, ◌≤◌, ℕ, pos, sym, subst, ◌∙◌,
}
use Prim.Native.Nat.{min}
use g_server.Store.Migration.Latest.{
  has_name, is_applied, IsDescending, latest_names-has_name, latest_names-IsDescending,
}
use g_server.Store.Migration.{
  settle_rolled, Entry, Schema, done, is_enough, down_name, roll_back, read_file, Outcome, rollback,
  up, failed, latest_names,
}

-- What a rollback that succeeds has done with the names, of which `before` are rolled back already.
record IsSplit {S : Type 0} (steps : ℤ) (names before rolled : List String) (db next : Schema S)
    : Type 0 where
  taken : List String
  rest : List String
  split : names ≡ taken ++ rest
  answer : rolled ≡ before ++ taken
  complete : (rest ≡ []) ⊎ (is_enough steps (length rolled) ≡ true)
  removed :
      (k : String)
      → lookup k next.applied ≡ (if has_name k taken then none else lookup k db.applied)

-- The names that `steps` lets go, of `n` that are applied.
abbrev allowed : ℤ → ℕ → ℕ
allowed (pos zero) n = n
allowed (pos (suc k)) n = suc k
allowed (negsuc k) n = n

-- How many of `n` names a rollback takes: `steps` of them, or all where `steps` is not positive.
abbrev pub wanted : ℤ → ℕ → ℕ
wanted (pos zero) n = n
wanted (pos (suc k)) n = min (suc k) n
wanted (negsuc k) n = n

append_nil : (xs : List String) → xs ++ [] ≡ xs
append_nil [] = refl
append_nil (x ∷ xs) = ap (λ ys. x ∷ ys) (append_nil xs)

append_one : (xs ys : List String) (y : String) → (xs ++ y ∷ []) ++ ys ≡ xs ++ y ∷ ys
append_one [] ys y = refl
append_one (x ∷ xs) ys y = ap (λ zs. x ∷ zs) (append_one xs ys y)

length_one : (xs : List String) (x : String) → length (xs ++ x ∷ []) ≡ suc (length xs)
length_one [] x = refl
length_one (y ∷ xs) x = ap suc (length_one xs x)

length_le : (xs ys : List String) → length xs ≤ length (xs ++ ys)
length_le [] ys = omega arith
length_le (x ∷ xs) ys = omega (arith, length_le xs ys)

module _ {S : Type 0} (exec : String → S → Option S) (sha256_hex : String → String) where
  roll_back-IsSplit :
      (dir : List Entry) (steps : ℤ) (names before rolled : List String) (db next : Schema S)
      → roll_back exec sha256_hex dir steps names before db ≡ (rolled, done next)
      → IsSplit steps names before rolled db next
  unfolding roll_back
  roll_back-IsSplit dir steps [] before rolled db next e = record {
    taken = [];
    rest = [];
    split = refl;
    answer = ground (arith, e, append_nil before);
    complete = inl refl;
    removed = λ k. ground (arith, e);
  }
  roll_back-IsSplit dir steps (name ∷ names) before rolled db next e =
      elim (Bool-cases (is_enough steps (length before))) [
        | inl enough ↦ record {
          taken = [];
          rest = name ∷ names;
          split = refl;
          answer = ground (arith, e, enough, append_nil before);
          complete = inr (ground (arith, e, enough));
          removed = λ k. ground (arith, e, enough);
        }
        | inr more ↦ elim (Option-cases (read_file (down_name name) dir)) [
          | inl missing ↦ absurd (ground arith)
          | inr (script, there) ↦ elim (Option-cases (exec script db.state)) [
            | inl refused ↦ absurd (ground arith)
            | inr (state, ran) ↦
                let mid : Schema S = record { state = state; applied = erase name db.applied } in
                let v =
                  roll_back-IsSplit dir steps names (before ++ name ∷ []) rolled mid next
                    (ground (arith, e, more, there, ran)) in
                record {
                  taken = name ∷ v.taken;
                  rest = v.rest;
                  split = ground (arith, v.split);
                  answer = ground (arith, v.answer, append_one before v.taken name);
                  complete = v.complete;
                  removed = λ k. ground (arith, v.removed k, lookup-erase name k db.applied);
                }
          ]
        ]
      ]

  roll_back-bounded :
      (dir : List Entry) (n : ℕ) (names before rolled : List String) (db next : Schema S)
      → length before ≤ suc n
      → roll_back exec sha256_hex dir (pos (suc n)) names before db ≡ (rolled, done next)
      → length rolled ≤ suc n
  unfolding roll_back
  roll_back-bounded dir n [] before rolled db next h e = ground (arith, e, h)
  roll_back-bounded dir n (name ∷ names) before rolled db next h e =
      elim (Bool-cases (is_enough (pos (suc n)) (length before))) [
        | inl enough ↦ ground (arith, e, enough, h)
        | inr more ↦ elim (Option-cases (read_file (down_name name) dir)) [
          | inl missing ↦ absurd (ground arith)
          | inr (script, there) ↦ elim (Option-cases (exec script db.state)) [
            | inl refused ↦ absurd (ground arith)
            | inr (state, ran) ↦
                roll_back-bounded dir n names (before ++ name ∷ []) rolled
                  (record { state = state; applied = erase name db.applied }) next
                  (ground (arith, more, length_one before name))
                  (ground (arith, e, more, there, ran))
          ]
        ]
      ]

  fits :
      (dir : List Entry) (steps : ℤ) (names rolled : List String) (db next : Schema S)
      → roll_back exec sha256_hex dir steps names [] db ≡ (rolled, done next)
      → IsSplit steps names [] rolled db next
      → length rolled ≤ allowed steps (length names)
  fits dir (pos zero) names rolled db next e v =
      ground (arith, v.split, v.answer, length_le v.taken v.rest)
  fits dir (pos (suc n)) names rolled db next e v =
      roll_back-bounded dir n names [] rolled db next (omega arith) e
  fits dir (negsuc n) names rolled db next e v =
      ground (arith, v.split, v.answer, length_le v.taken v.rest)

  settled_done :
      (db next : Schema S) (r : List String × Outcome (Schema S)) (rolled : List String)
      → settle_rolled exec sha256_hex up db r ≡ ((rolled, done tt), next)
      → r ≡ (rolled, done next)
  settled_done db next (names, done x) rolled e = ground (arith, e)
  settled_done db next (names, failed x) rolled e = absurd (ground (arith, e))

  exact :
      (steps : ℤ) (names rolled : List String) (db next : Schema S)
      → IsSplit steps names [] rolled db next
      → length rolled ≤ allowed steps (length names)
      → length rolled ≡ wanted steps (length names)
  exact steps names rolled db next v most = elim v.complete [
    | inl none_left ↦
        let all : length names ≡ length rolled =
          ground (arith, v.split, v.answer, none_left, append_nil v.taken) in
        all_wanted steps all most
    | inr enough ↦
        let some_left : length rolled ≤ length names =
          ground (arith, v.split, v.answer, length_le v.taken v.rest) in
        enough_wanted steps some_left enough most
  ]
    where
      all_wanted :
          (steps : ℤ)
          → length names ≡ length rolled
          → length rolled ≤ allowed steps (length names)
          → length rolled ≡ wanted steps (length names)
      all_wanted (pos zero) e most = sym e
      all_wanted (pos (suc k)) e most = ground (arith, e, most)
      all_wanted (negsuc k) e most = sym e

      enough_wanted :
          (steps : ℤ)
          → length rolled ≤ length names
          → is_enough steps (length rolled) ≡ true
          → length rolled ≤ allowed steps (length names)
          → length rolled ≡ wanted steps (length names)
      enough_wanted (pos zero) l e most = absurd (ground (arith, e))
      enough_wanted (pos (suc k)) l e most = ground (arith, l, e, most)
      enough_wanted (negsuc k) l e most = absurd (ground (arith, e))

  -- What a rollback answers with and removes. `rest` are the names that stay: with those that were
  -- rolled back they are the names that were applied, none of them before one that follows it. As
  -- many were taken as `steps` asks for, or all; their rows are gone, and the other rows are as they
  -- were.
  pub record IsNewest (text_before : String → String → Bool) (steps : ℤ) (rolled : List String)
      (db next : Schema S) : Type 0 where
    pub rest : List String
    pub all_applied : (k : String) → has_name k (rolled ++ rest) ≡ is_applied k db.applied
    pub latest_first : IsDescending text_before (rolled ++ rest)
    pub count : length rolled ≡ wanted steps (length (rolled ++ rest))
    pub removed :
        (k : String)
        → lookup k next.applied ≡ (if has_name k rolled then none else lookup k db.applied)

  -- A rollback that succeeds takes the latest of the applied migrations, as `IsNewest` says, where
  -- the database's order of texts is one: what is before a text is not after it, and what is not
  -- before a second that is not before a third is not before the third.
  pub rollback_takes_latest :
      (text_before : String → String → Bool)
      → ((s t : String) → text_before s t ≡ true → text_before t s ≡ false)
      → ((s t u : String)
          → text_before s t ≡ false
          → text_before t u ≡ false
          → text_before s u ≡ false)
      → (dir : List Entry) (steps : ℤ) (rolled : List String) (db next : Schema S)
      → rollback exec sha256_hex text_before up dir steps db ≡ ((rolled, done tt), next)
      → IsNewest text_before steps rolled db next
  unfolding rollback
  rollback_takes_latest text_before one_way passes_on dir steps rolled db next e =
      let names = latest_names text_before db.applied in
      let ran = settled_done db next (roll_back exec sha256_hex dir steps names [] db) rolled e in
      let v = roll_back-IsSplit dir steps names [] rolled db next ran in
      let all : names ≡ rolled ++ v.rest = v.split ∙ ap (λ l. l ++ v.rest) (sym v.answer) in
      record {
        rest = v.rest;
        all_applied = λ k. rw (← all) (latest_names-has_name text_before k db.applied);
        latest_first =
            subst (IsDescending text_before) all
              (latest_names-IsDescending text_before one_way passes_on db.applied);
        count =
            rw (← all)
              (exact steps names rolled db next v (fits dir steps names rolled db next ran v));
        removed = λ k. rw v.answer (v.removed k);
      }
