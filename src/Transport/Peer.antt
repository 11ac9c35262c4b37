-- ===== src/Transport/Peer.antt =====
-- Backend/transport/http.go: from where a request may come without TLS.
use g_server.Common.{
  ℕ, ◌/◌, Bool, List, [], ◌∷◌, false, ◌&&◌, ◌||◌, Option, none, some, leb, ◌==◌, number_key,
}

-- An address by its bytes, or by the eight words of IPv6; one that holds an IPv4 address is `v4`.
pub data Ip : Type 0 where
  v4 : (a b c d : ℕ) → Ip
  v6 : (a b c d e f g h : ℕ) → Ip

-- IP.IsLoopback.
abbrev pub is_loopback : Ip → Bool
is_loopback (v4 a b c d) = a == 127
is_loopback (v6 a b c d e f g h) =
    a == 0 && b == 0 && c == 0 && d == 0 && e == 0 && f == 0 && g == 0 && h == 1

-- IP.IsPrivate.
abbrev pub is_private : Ip → Bool
is_private (v4 a b c d) = a == 10 || (a == 172 && leb 16 b && leb b 31) || (a == 192 && b == 168)
is_private (v6 a b c d e f g h) = a / 512 == 126

abbrev pub has : (Ip → Bool) → Option Ip → Bool
has test none = false
has test (some ip) = test ip

-- The struct Handler without its windows.
pub record Handler : Type 0 where
  pub allow_http : Bool
  pub allow_dev_docker_http : Bool

-- `len(options) > 0 && options[0]`.
abbrev pub first_or_false : List Bool → Bool
first_or_false [] = false
first_or_false (option ∷ options) = option

abbrev pub new_handler : Bool → List Bool → Handler
new_handler allow options = record {
  allow_http = allow;
  allow_dev_docker_http = first_or_false options;
}

-- `net.ParseIP(ip)` is `none` where the text is no address.
unfoldable pub may_connect : Handler → Bool → Option Ip → Bool
may_connect h tls address =
    tls
    || (h.allow_http && has is_loopback address)
    || (h.allow_dev_docker_http && (has is_loopback address || has is_private address))
