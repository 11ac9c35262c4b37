-- ===== src/Runner.antt =====
-- Backend/cmd/testdb/main.go: a command that runs against a PostgreSQL server in a container of its
-- own. What the program does outside is a list of actions; what comes back is a `World`.
pub mod Cleanup
use Prim.Native.Char.{Char, code}
use Prim.Native.String
use Prim.Native.String.{◌++◌ as append}
use g_server.Common.{
  ℕ, zero, suc, Bool, true, false, not, ◌&&◌, Option, none, some, List, [], ◌∷◌, ◌++◌, String, Dict,
  ◌==◌, text_key, number_key, if◌then◌else◌,
}
use g_server.Transport.Credential.{is_space, push}
use g_server.Process.Seed.{hex}

-- `docker run`, `docker port` and `docker rm -f`, and the command with the settings added to the
-- environment.
pub data Action : Type 0 where
  docker_run : (name password : String) → Action
  docker_port : (name : String) → Action
  child : (command : List String) (settings : Dict String) → Action
  docker_rm : (name : String) → Action

-- The commands that fail give `none`, also those that a signal has ended. `port_at n` is what the
-- poll after `n` others prints.
pub record World : Type 0 where
  pub has_docker : Bool
  pub random : Option (List ℕ)
  pub started : Option String
  pub port_at : ℕ → Option String
  pub directory : Option String
  pub ends_well : List String → Dict String → Bool

unfoldable pub trim_left : String → String
trim_left String.[] = String.[]
trim_left (String.◌∷◌ c s) =
    let rest = trim_left s in if is_space (code c) then rest else String.◌∷◌ c s

unfoldable pub trim_right : String → String
trim_right String.[] = String.[]
trim_right (String.◌∷◌ c s) =
    let rest = trim_right s in if rest == "" && is_space (code c) then "" else String.◌∷◌ c rest

-- `strings.TrimSpace`.
unfoldable pub trim_space : String → String
unfolding trim_left trim_right
trim_space s = trim_right (trim_left s)

-- The last of `strings.Split(s, ":")`, after the part that was begun.
unfoldable pub last_part : String → String → String
last_part part String.[] = part
last_part part (String.◌∷◌ c s) = last_part (if code c == b':' then "" else push part c) s

abbrev pub printed_port : Option String → Option String
printed_port none = none
printed_port (some out) =
    if trim_space out == "" then none else some (last_part "" (trim_space out))

-- The loop that polls, with `rounds` left and `i` done.
unfoldable pub find_port : (ℕ → Option String) → String → ℕ → ℕ → List Action × String
unfolding trim_space last_part
find_port port_at name zero i = ([], "")
find_port port_at name (suc rounds) i = elim (printed_port (port_at i)) [
  | some port ↦ (docker_port name ∷ [], port)
  | none ↦
      let (polls, port) = find_port port_at name rounds (suc i) in (docker_port name ∷ polls, port)
]

abbrev pub container : List ℕ → String
container bytes = append "g0-go-test-" (hex bytes)

abbrev pub new_password : List ℕ → String
new_password bytes = append (hex bytes) "-P9!"

abbrev pub url : String → String → String
url password port =
    append "postgres://g0:"
      (append password (append "@127.0.0.1:" (append port "/g0?sslmode=disable")))

-- `filepath.Join(wd, "migrations")`, of a directory that is absolute and clean.
abbrev pub migrations_of : String → String
migrations_of wd = if wd == "/" then "/migrations" else append wd "/migrations"

abbrev pub settings : List ℕ → String → String → Dict String
settings bytes port wd =
    ("DATABASE_URL", url (new_password bytes) port)
    ∷ ("ROOM_SERVICE_TOKEN", "runner-service-token-012345678901234567890123")
    ∷ ("TEST_DB_SCHEMA", append "test_" (hex bytes))
    ∷ ("TEST_DB_INTEGRATION", "1")
    ∷ ("MIGRATIONS_DIR", migrations_of wd)
    ∷ []

abbrev pub command_or_tests : List String → List String
command_or_tests [] = "go" ∷ "test" ∷ "-race" ∷ "-tags" ∷ "integration" ∷ "./..." ∷ []
command_or_tests (arg ∷ args) = arg ∷ args

abbrev pub run_child : World → List String → Dict String → List Action × Option String
run_child w command s =
    (child command s ∷ [], if w.ends_well command s then none else some "exit status")

-- From the port on.
unfoldable pub with_port : World → List String → List ℕ → String → List Action × Option String
with_port w args bytes port =
    if port == "" then ([], some "postgres container did not expose a port") else elim w.directory [
      | none ↦ ([], some "no directory")
      | some wd ↦ run_child w (command_or_tests args) (settings bytes port wd)
    ]

-- What is done once the container is asked for, without its removal.
unfoldable pub started : World → List String → List ℕ → List Action × Option String
unfolding find_port with_port
started w args bytes = elim w.started [
  | none ↦ ([], some "docker start failed")
  | some out ↦
      if trim_space out == ""
      then ([], some "docker returned no container id")
      else let (polls, port) = find_port w.port_at (container bytes) 60 0 in
        let (rest, e) = with_port w args bytes port in (polls ++ rest, e)
]

-- `defer cleanup()`, whatever comes back.
abbrev pub with_cleanup : List ℕ → List Action × Option String → List Action × Option String
with_cleanup bytes (actions, e) = (
  docker_run (container bytes) (new_password bytes) ∷ (actions ++ docker_rm (container bytes) ∷ []),
  e,
)

-- The actions in their order, and the error.
unfoldable pub run_testdb : World → List String → List Action × Option String
unfolding started
run_testdb w args = if not w.has_docker then ([], some "docker is required") else elim w.random [
  | none ↦ ([], some "no random bytes")
  | some bytes ↦ with_cleanup bytes (started w args bytes)
]
