-- ===== src/Transport/Credential.antt =====
-- Backend/transport/http.go: the Authorization header and the lengths of texts.
use Prim.Native.Char.{Char, code}
use Prim.Native.String
use Prim.Native.String.{len, slice}
use g_server.Common.{
  starts_with, ℕ, ◌+◌, Bool, true, false, ◌&&◌, ◌||◌, Option, none, some, List, [], ◌∷◌, String,
  leb, ltb, ◌==◌, number_key, text_key, if◌then◌else◌,
}

-- `text`: the characters of a decoded JSON text are always valid.
abbrev pub text_within : String → ℕ → Bool
text_within s most = ltb 0 (String.count s) && leb (String.count s) most

abbrev pub scheme : String
scheme = "Bearer "

-- The lengths are in bytes.
unfoldable pub service_authorized : String → String → Bool
service_authorized header expected =
    len header == len scheme + len expected
    && starts_with header scheme
    && slice header (len scheme) (len header) == expected

-- unicode.IsSpace.
abbrev pub is_space : ℕ → Bool
is_space c =
    (leb 9 c && leb c 13)
    || c == 32
    || c == 0x85
    || c == 0xA0
    || c == 0x1680
    || (leb 0x2000 c && leb c 0x200A)
    || c == 0x2028
    || c == 0x2029
    || c == 0x202F
    || c == 0x205F
    || c == 0x3000

abbrev pub push : String → Char → String
push s c = String.◌++◌ s (String.◌∷◌ c String.[])

abbrev pub flush : String → List String → List String
flush word words = if word == "" then words else word ∷ words

-- strings.Fields, with the word that was begun.
unfoldable pub fields_from : String → String → List String
fields_from word String.[] = flush word []
fields_from word (String.◌∷◌ c s) =
    let ended = flush word (fields_from "" s) in
    let longer = fields_from (push word c) s in if is_space (code c) then ended else longer

abbrev pub lower : ℕ → ℕ
lower c = if leb b'A' c && leb c b'Z' then c + 32 else c

-- strings.EqualFold with an ASCII text that has neither k nor s, which have equals beyond ASCII.
unfoldable pub equal_fold : String → String → Bool
equal_fold String.[] String.[] = true
equal_fold String.[] (String.◌∷◌ d t) = false
equal_fold (String.◌∷◌ c s) String.[] = false
equal_fold (String.◌∷◌ c s) (String.◌∷◌ d t) = lower (code c) == lower (code d) && equal_fold s t

abbrev pub bearer_of : List String → Option String
bearer_of [] = none
bearer_of (kind ∷ []) = none
bearer_of (kind ∷ token ∷ []) = if equal_fold kind "Bearer" then some token else none
bearer_of (kind ∷ token ∷ more ∷ rest) = none

-- The token of a header that has two words, the first of them "Bearer" in any case.
unfoldable pub bearer : String → Option String
unfolding fields_from equal_fold
bearer header = bearer_of (fields_from "" header)
