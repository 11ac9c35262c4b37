-- ===== src/Transport/Access.antt =====
-- Backend/transport/http.go: who gets through to the database.
use Prim.Native.String.{len, ◌++◌ as append}
use text.Mathlib.TextEquality.{starts_with_iff, eq_iff}
use text.Mathlib.TextPositions.{len-append, slice-append_right, starts_with-append}
use g_server.Common.{
  starts_with, refl, true, false, [], ◌∷◌, some, inl, inr, Bool-cases, Option-cases, subst, arith,
  ◌↔◌, true, ◌≡◌, String, sym, ◌==◌, ◌&&◌, text_key, number_key, ◌∙◌, ap, ◌+◌, Bool, lookup, Dict,
  not, text_iff, ◌||◌,
}
use g_server.Transport.Credential.{service_authorized, scheme}
use g_server.Transport.Serve.{limits, limit_of}

service_authorized-append :
    (expected rest : String)
    → service_authorized (append scheme rest) expected
      ≡ (len scheme + len rest == len scheme + len expected && rest == expected)
unfolding service_authorized
service_authorized-append expected rest =
    rw (len-append scheme rest)
      (rw (starts_with-append scheme rest) (rw (slice-append_right scheme rest) (ground arith)))

starts_with-scheme :
    (header expected : String)
    → service_authorized header expected ≡ true
    → starts_with header scheme ≡ true
unfolding service_authorized
starts_with-scheme header expected h = ground arith

-- The header of a service is "Bearer " and the expected token, and nothing else.
pub service_authorized_iff :
    (header expected : String)
    → (service_authorized header expected ≡ true) ↔ (header ≡ append scheme expected)
service_authorized_iff header expected = (
  λ h.
      let (rest, split) =
        (starts_with_iff header scheme).0 (starts_with-scheme header expected h) in
      let same : (rest == expected) ≡ true =
        ground (arith, service_authorized-append expected rest, h, split) in
      sym split ∙ ap (append scheme) ((eq_iff rest expected).0 same),
  λ e.
      rw e (
        rw (service_authorized-append expected expected)
          (ground (arith, eq_iff expected expected))),
)

unfoldable pub all_keys {ℓ} : {V : Type ℓ} → (String → Bool) → Dict V → Bool
all_keys p [] = true
all_keys p ((k, v) ∷ d) = p k && all_keys p d

pub lookup-all_keys {ℓ} :
    {V : Type ℓ} (p : String → Bool) (d : Dict V) (k : String)
    → all_keys p d ≡ true
    → (amount : V) → lookup k d ≡ some amount
    → p k ≡ true
unfolding all_keys lookup
lookup-all_keys p [] k h a e = absurd (ground arith)
lookup-all_keys p ((j, v) ∷ d) k h a e = elim (Bool-cases (j == k)) [
  | inl same ↦ subst (λ (s : String). p s ≡ true) ((text_iff j k).0 same) (ground arith)
  | inr other ↦ lookup-all_keys p d k (ground arith) a (ground arith)
]

abbrev pub is_internal : String → Bool
is_internal path = starts_with path "/v1/internal/"

-- An internal path with a limit has a route behind the service token.
abbrev pub is_guarded : String → Bool
is_guarded path =
    not (is_internal path)
    || path == "/v1/internal/tickets/redeem"
    || starts_with path "/v1/internal/progress/"
    || starts_with path "/v1/internal/rooms/"

all_guarded : all_keys is_guarded limits ≡ true
unfolding all_keys
all_guarded = refl

pub limit_of-is_guarded : (path : String) → (limit_of path == 0) ≡ false → is_guarded path ≡ true
unfolding limit_of
limit_of-is_guarded path h = elim (Option-cases (lookup path limits)) [
  | inl absent ↦ absurd (ground arith)
  | inr (n, found) ↦ lookup-all_keys is_guarded limits path all_guarded n found
]

-- A path is not one that a test tells it from.
pub differs :
    (p : String → Bool) (path other : String)
    → p path ≡ true
    → p other ≡ false
    → (path == other) ≡ false
differs p path other h k = elim (Bool-cases (path == other)) [
  | inr e ↦ e
  | inl same ↦ absurd (ground (arith, text_iff path other))
]
