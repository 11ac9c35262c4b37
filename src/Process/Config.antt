-- ===== src/Process/Config.antt =====
-- Backend/main.go: what the command serve reads from the environment.
use Prim.Native.String.{◌++◌ as append}
use g_server.Common.{
  [], ◌∷◌, zero, suc, true, false, ℕ, ◌^◌, ℤ, pos, negsuc, Bool, true, false, not, ◌&&◌, ◌||◌,
  Option, none, some, String, leb, ltb, ◌==◌, number_key, text_key, if◌then◌else◌,
}
use g_server.Transport.Number.{digits}
use g_server.Transport.Peer.{Handler, new_handler}
use g_server.Usecase.Service.{Service}

-- `os.Getenv`: a variable that is not set is the empty text.
abbrev pub Environment : Type 0
Environment = String → String

abbrev pub text_or : String → String → String
text_or x d = if x == "" then d else x

abbrev pub env : Environment → String → String → String
env getenv k d = text_or (getenv k) d

abbrev pub positive : Option ℕ → Option ℤ
positive none = none
positive (some n) = if ltb n (2 ^ 63) then some (pos n) else none

-- `-(n + 1)` is `negsuc n`.
abbrev pub opposite : ℕ → ℤ
opposite zero = pos 0
opposite (suc n) = negsuc n

abbrev pub negative : Option ℕ → Option ℤ
negative none = none
negative (some n) = if leb n (2 ^ 63) then some (opposite n) else none

-- `strconv.Atoi` into 64 bits.
unfoldable pub atoi : String → Option ℤ
atoi String.[] = none
atoi (String.◌∷◌ c s) =
    if String.◌∷◌ c String.[] == "-"
    then negative (digits s)
    else if String.◌∷◌ c String.[] == "+"
    then positive (digits s)
    else positive (digits (String.◌∷◌ c s))

abbrev pub within_ports : ℤ → Option ℕ
within_ports (negsuc n) = none
within_ports (pos n) = if ltb n 1 || ltb 65535 n then none else some n

abbrev pub port_of : Option ℤ → Option ℕ
port_of none = none
port_of (some n) = within_ports n

-- `net.JoinHostPort`.
unfoldable pub has_colon : String → Bool
has_colon String.[] = false
has_colon (String.◌∷◌ c s) =
    let rest = has_colon s in if String.◌∷◌ c String.[] == ":" then true else rest

abbrev pub join_host_port : String → String → String
join_host_port host port =
    if has_colon host
    then append "[" (append host (append "]:" port))
    else append host (append ":" port)

-- The server that is started: `transport.New`, its address, and its certificate and key.
pub record Config : Type 0 where
  pub service : Service
  pub handler : Handler
  pub address : String
  pub cert : String
  pub key : String

-- `!=` on two tests.
abbrev pub differ : Bool → Bool → Bool
differ true b = not b
differ false b = b

module _ (getenv : Environment) where
  abbrev pub allows_http : Bool
  allows_http = getenv "ALLOW_LOOPBACK_HTTP" == "1"

  abbrev pub no_certificate : Bool
  no_certificate =
      differ (getenv "TLS_CERT_FILE" == "") (getenv "TLS_KEY_FILE" == "")
      || (getenv "TLS_CERT_FILE" == "" && not allows_http)

  abbrev pub config_for : ℕ → Config
  config_for port = record {
    service = record {
      service_token = getenv "ROOM_SERVICE_TOKEN";
      host = env getenv "ROOM_HOST" "127.0.0.1";
      port = port;
    };
    handler = new_handler allows_http ((getenv "ALLOW_DEV_DOCKER_HTTP" == "1") ∷ []);
    address =
        join_host_port (env getenv "BACKEND_BIND_HOST" "127.0.0.1")
          (env getenv "BACKEND_PORT" "8000");
    cert = getenv "TLS_CERT_FILE";
    key = getenv "TLS_KEY_FILE";
  }
