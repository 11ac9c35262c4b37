-- ===== src/Integration/Script.antt =====
-- Backend/cmd/g1integration/main.go: the calls that the test makes, and its deferred calls.
use Prim.Native.String
use Prim.Native.String.{◌++◌ as append}
use g_server.Common.{
  ℕ, zero, suc, ◌-◌, Bool, true, Option, none, some, List, ◌∷◌, String, starts_with, ◌==◌,
  number_key, text_key, if◌then◌else◌,
}

-- What a run holds until its end.
pub data Resource : Type 0 where
  directory pool : Resource
  process : (name : String) → Resource

pub data Event : Type 0 where
  find_root make_temp open_pool wait_database migrate : Event
  build : (binary : String) → Event
  listen : (network : String) → Event
  seed : (binary user : String) (env : List String) → Event
  start : (name : String) (args env : List String) → Event
  wait_ready : (url : String) → Event
  wait_log : (name marker : String) → Event
  await_process : (name : String) → Event
  read_room read_tickets : Event
  read_weapon read_coins : (user : String) → Event
  wait_files : (a b : String) → Event
  write_file read_file : (path : String) → Event
  pause : (seconds : ℕ) → Event
  kill : (name : String) → Event
  print_logs close_pool remove_temp : Event
  print : (line : String) → Event

-- The row of the room that the game server has registered, its port as it is printed.
pub record Registered : Type 0 where
  pub host : String
  pub port : String
  pub protocol : ℕ
  pub content : String
  pub config : String
  pub capacity : ℕ
  pub generation : ℕ
  pub status : String

-- What comes back from outside. A call can fail, at any point of the run: a wait also when the time
-- of the run is over. The events so far are the latest first; ports are as they are printed.
pub record World : Type 0 where
  pub getenv : String → String
  pub fails : List Event → Event → Option String
  pub log_of : List Event → String → String
  pub root : String
  pub temp : String
  pub port : String
  pub room_port : String
  pub room : Registered
  pub weapon_of : String → String
  pub coins_of : String → ℕ
  pub content_of : String → String
  pub redeemed : ℕ
  pub players : ℕ

-- The events that have worked, the latest first, and the deferred calls, the next one first.
pub record Run : Type 0 where
  pub trace : List Event
  pub deferred : List Event

pub data Outcome (A : Type 0) : Type 0 where
  passed : A → Outcome A
  failed : String → Outcome A

abbrev pub Script : Type 0 → Type 0
Script A = Run → Outcome A × Run

abbrev pub go_on : {A B : Type 0} → Outcome A × Run → (A → Script B) → Outcome B × Run
go_on (failed m, r) rest = (failed m, r)
go_on (passed a, r) rest = rest a r

infixl 5 ◌>>=◌ ◌>>◌
abbrev pub ◌>>=◌ : {A B : Type 0} → Script A → (A → Script B) → Script B
◌>>=◌ first rest r = go_on (first r) rest

abbrev pub ◌>>◌ : {A B : Type 0} → Script A → Script B → Script B
◌>>◌ first rest r = go_on (first r) (λ _. rest)

abbrev pub done : Script (Unit {0})
done r = (passed tt, r)

unfoldable pub fail_if : Bool → String → Script (Unit {0})
fail_if test message r = if test then (failed message, r) else (passed tt, r)

unfoldable pub later : Event → Script (Unit {0})
later e r = (passed tt, record r { deferred = e ∷ r.deferred })

unfoldable pub trace_of : {A : Type 0} → (List Event → A) → Script A
trace_of f r = (passed (f r.trace), r)

abbrev pub settled : Option String → Event → Script (Unit {0})
settled none e r = (passed tt, record r { trace = e ∷ r.trace })
settled (some message) e r = (failed message, r)

unfoldable pub perform : World → Event → Script (Unit {0})
perform w e r = settled (w.fails r.trace e) e r

-- A call whose result is to be released, and `defer` of the release.
unfoldable pub acquire : World → Event → Event → Script (Unit {0})
unfolding perform later
acquire w e release = perform w e >> later release

-- `strings.Contains`.
unfoldable pub contains : String → String → Bool
contains String.[] part = starts_with String.[] part
contains (String.◌∷◌ c s) part =
    let rest = contains s part in if starts_with (String.◌∷◌ c s) part then true else rest

-- `strings.Count` of a part that is not empty; `skip` characters belong to the last one found.
unfoldable pub count_from : ℕ → String → String → ℕ
count_from skip String.[] part = 0
count_from zero (String.◌∷◌ c s) part =
    let found = suc (count_from (String.count part - 1) s part) in
    let rest = count_from 0 s part in if starts_with (String.◌∷◌ c s) part then found else rest
count_from (suc skip) (String.◌∷◌ c s) part = count_from skip s part

-- `filepath.Join` of a directory that is absolute and clean.
abbrev pub join : String → String → String
join dir name = if dir == "/" then append "/" name else append dir (append "/" name)

-- What has no outcome.
unfoldable pub note : Event → Script (Unit {0})
note e r = (passed tt, record r { trace = e ∷ r.trace })
