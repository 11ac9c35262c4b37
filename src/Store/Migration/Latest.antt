-- ===== src/Store/Migration/Latest.antt =====
-- The names that are applied, the latest first.
use g_server.Common.{
  ◌≡◌, ◌||◌, refl, arith, [], ◌∷◌, true, false, inl, inr, String, Bool, none, some, List, Dict,
  lookup, ◌==◌, text_key, Bool-cases,
}
use g_server.Store.Migration.{latest_names, insert_latest}

abbrev pub has_name : String → List String → Bool
has_name k [] = false
has_name k (n ∷ ns) = n == k || has_name k ns

abbrev pub is_applied : String → Dict String → Bool
is_applied k rows = elim (lookup k rows) [ none ↦ false | some sum ↦ true ]

-- The database has each of these texts no later than `s`.
abbrev pub AreNotAfter : (String → String → Bool) → String → List String → Type 0
AreNotAfter text_before s [] = Unit {0}
AreNotAfter text_before s (t ∷ ts) = (text_before s t ≡ false) × AreNotAfter text_before s ts

-- No text comes before one that follows it in the list.
abbrev pub IsDescending : (String → String → Bool) → List String → Type 0
IsDescending text_before [] = Unit {0}
IsDescending text_before (t ∷ ts) = AreNotAfter text_before t ts × IsDescending text_before ts

insert_latest-has_name :
    (text_before : String → String → Bool) (k s : String) (ts : List String)
    → has_name k (insert_latest text_before s ts) ≡ (s == k || has_name k ts)
unfolding insert_latest
insert_latest-has_name text_before k s [] = refl
insert_latest-has_name text_before k s (t ∷ ts) =
    ground (arith, insert_latest-has_name text_before k s ts)

pub latest_names-has_name :
    (text_before : String → String → Bool) (k : String) (rows : Dict String)
    → has_name k (latest_names text_before rows) ≡ is_applied k rows
unfolding latest_names lookup
latest_names-has_name text_before k [] = refl
latest_names-has_name text_before k ((name, sum) ∷ rows) = ground (
  arith,
  insert_latest-has_name text_before k name (latest_names text_before rows),
  latest_names-has_name text_before k rows,
)

-- The order of texts in a collation.
module _ (text_before : String → String → Bool)
    (one_way : (s t : String) → text_before s t ≡ true → text_before t s ≡ false)
    (passes_on : (s t u : String)
      → text_before s t ≡ false
      → text_before t u ≡ false
      → text_before s u ≡ false) where
  AreNotAfter-trans :
      (s t : String) (ts : List String)
      → text_before s t ≡ false
      → AreNotAfter text_before t ts
      → AreNotAfter text_before s ts
  AreNotAfter-trans s t [] h v = tt
  AreNotAfter-trans s t (u ∷ us) h v = (passes_on s t u h v.0, AreNotAfter-trans s t us h v.1)

  insert_latest-AreNotAfter :
      (r s : String) (ts : List String)
      → text_before r s ≡ false
      → AreNotAfter text_before r ts
      → AreNotAfter text_before r (insert_latest text_before s ts)
  unfolding insert_latest
  insert_latest-AreNotAfter r s [] h v = (h, tt)
  insert_latest-AreNotAfter r s (t ∷ ts) h v = elim (Bool-cases (text_before s t)) [
    | inl before ↦ rw before (v.0, insert_latest-AreNotAfter r s ts h v.1)
    | inr other ↦ rw other (h, v)
  ]

  insert_latest-IsDescending :
      (s : String) (ts : List String)
      → IsDescending text_before ts
      → IsDescending text_before (insert_latest text_before s ts)
  unfolding insert_latest
  insert_latest-IsDescending s [] v = (tt, tt)
  insert_latest-IsDescending s (t ∷ ts) v = elim (Bool-cases (text_before s t)) [
    | inl before ↦ rw before (
      insert_latest-AreNotAfter t s ts (one_way s t before) v.0,
      insert_latest-IsDescending s ts v.1,
    )
    | inr other ↦ rw other ((other, AreNotAfter-trans s t ts other v.0), v)
  ]

  pub latest_names-IsDescending :
      (rows : Dict String) → IsDescending text_before (latest_names text_before rows)
  unfolding latest_names
  latest_names-IsDescending [] = tt
  latest_names-IsDescending ((name, sum) ∷ rows) =
      insert_latest-IsDescending name (latest_names text_before rows)
        (latest_names-IsDescending rows)
