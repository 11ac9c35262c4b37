-- ===== src/Transport/Keys.antt =====
-- Backend/transport/http.go: the keys of the limiter, a path and a client address with a bar between.
use Prim.Native.String.{◌++◌ as append}
use text.Mathlib.TextLemmas.{cons-append, nil-append}
use g_server.Common.{
  String, Bool, true, false, not, ◌&&◌, ◌==◌, number_key, text_key, if◌then◌else◌, ◌≡◌, refl, arith,
  ap, ◌∙◌, ℕ, Option-cases, lookup, inl, inr,
}
use g_server.Transport.Access.{all_keys, lookup-all_keys}
use g_server.Transport.Serve.{limit_of, limits, key_of}
use g_server.Transport.Message.{Request}

-- The part of a key before its first bar.
unfoldable pub before_bar : String → String
before_bar String.[] = ""
before_bar (String.◌∷◌ c s) =
    let rest = before_bar s in if String.◌∷◌ c String.[] == "|" then "" else String.◌∷◌ c rest

unfoldable has_no_bar : String → Bool
has_no_bar String.[] = true
has_no_bar (String.◌∷◌ c s) = not (String.◌∷◌ c String.[] == "|") && has_no_bar s

bar-append : (ip : String) → append "|" ip ≡ String.◌∷◌ "|" ip
bar-append ip = cons-append "|" "" ip ∙ ap (String.◌∷◌ "|") (nil-append ip)

before_bar-bar : (ip : String) → before_bar (append "|" ip) ≡ ""
unfolding before_bar
before_bar-bar ip = ground (arith, bar-append ip)

before_bar-append :
    (path ip : String) → has_no_bar path ≡ true → before_bar (append path (append "|" ip)) ≡ path
unfolding before_bar has_no_bar
before_bar-append String.[] ip h = ap before_bar (nil-append (append "|" ip)) ∙ before_bar-bar ip
before_bar-append (String.◌∷◌ c s) ip h =
    ground (arith, h, cons-append c s (append "|" ip), before_bar-append s ip)

-- The limit of the path that a key begins with.
abbrev pub limit_of_key : String → ℕ
limit_of_key key = limit_of (before_bar key)

all_plain : all_keys has_no_bar limits ≡ true
unfolding all_keys has_no_bar
all_plain = refl

limit_of-has_no_bar : (path : String) → (limit_of path == 0) ≡ false → has_no_bar path ≡ true
unfolding limit_of
limit_of-has_no_bar path h = elim (Option-cases (lookup path limits)) [
  | inl absent ↦ absurd (ground arith)
  | inr (n, found) ↦ lookup-all_keys has_no_bar limits path all_plain n found
]

-- The key of a request has the limit of its path.
pub limit_of_key-key_of :
    (r : Request) → (limit_of r.path == 0) ≡ false → limit_of_key (key_of r) ≡ limit_of r.path
limit_of_key-key_of r h = ap limit_of (before_bar-append r.path r.ip (limit_of-has_no_bar r.path h))
