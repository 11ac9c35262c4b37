-- ===== src/Runner/Cleanup.antt =====
-- What becomes of the container.
use g_server.Common.{
  ℕ, zero, suc, ◌≤◌, Option, none, some, List, [], ◌∷◌, ◌++◌, String, ◌≡◌, ◌≢◌, inl, inr, refl, sym,
  ap, subst, ◌∙◌, arith, Option-cases, Bool-cases, ◌==◌, text_key, if◌then◌else◌, text_iff,
}
use g_server.Runner.{
  World, Action, docker_run, docker_port, child, docker_rm, find_port, with_port, started,
  run_testdb, with_cleanup, settings, container, new_password, command_or_tests, trim_space,
  printed_port,
}

-- The same poll, again and again.
abbrev pub polls : ℕ → String → List Action
polls zero name = []
polls (suc n) name = docker_port name ∷ polls n name

-- How a run goes on once the port is polled: it fails, or the command runs at a port that was found
-- and its end is the run's.
pub data Ends (w : World) (args : List String) (bytes : List ℕ) (actions : List Action)
    (e : Option String) : Type 0 where
  fails : (message : String) → actions ≡ [] → e ≡ some message → Ends w args bytes actions e
  runs :
      (port wd : String)
      → port ≢ ""
      → w.directory ≡ some wd
      → actions ≡ child (command_or_tests args) (settings bytes port wd) ∷ []
      → e ≡ (
          if w.ends_well (command_or_tests args) (settings bytes port wd)
          then none
          else some "exit status")
      → Ends w args bytes actions e

-- Between the container's start and its removal.
pub record Inside (w : World) (args : List String) (bytes : List ℕ) (actions : List Action)
    (e : Option String) : Type 0 where
  pub rounds : ℕ
  pub bounded : rounds ≤ 60
  pub rest : List Action
  pub split : actions ≡ polls rounds (container bytes) ++ rest
  pub end : Ends w args bytes rest e

find_port-polls :
    (port_at : ℕ → Option String) (name : String) (rounds i : ℕ)
    → (k : ℕ) × (k ≤ rounds) × ((find_port port_at name rounds i).0 ≡ polls k name)
unfolding find_port
find_port-polls port_at name zero i = (0, omega arith, refl)
find_port-polls port_at name (suc rounds) i = elim (Option-cases (printed_port (port_at i))) [
  | inr (port, found) ↦ (1, omega arith, ground (arith, found))
  | inl nothing ↦
      let (k, h, e) = find_port-polls port_at name rounds (suc i) in
      (suc k, omega (arith, h), ground (arith, nothing, e))
]

with_port-Ends :
    (w : World) (args : List String) (bytes : List ℕ) (port : String)
    → Ends w args bytes (with_port w args bytes port).0 (with_port w args bytes port).1
unfolding with_port
with_port-Ends w args bytes port = elim (Bool-cases (port == "")) [
  | inl empty ↦ fails "postgres container did not expose a port" (rw empty refl) (rw empty refl)
  | inr there ↦ elim (Option-cases w.directory) [
    | inl lost ↦ fails "no directory" (rw (there, lost) refl) (rw (there, lost) refl)
    | inr (wd, found) ↦
        runs port wd (λ e. ground (arith, there, (text_iff port "").1 e)) found
          (rw (there, found) refl) (rw (there, found) refl)
  ]
]

started-Inside :
    (w : World) (args : List String) (bytes : List ℕ)
    → Inside w args bytes (started w args bytes).0 (started w args bytes).1
unfolding started
started-Inside w args bytes = elim (Option-cases w.started) [
  | inl broken ↦ record {
    rounds = 0;
    bounded = omega arith;
    rest = [];
    split = rw broken refl;
    end = fails "docker start failed" refl (rw broken refl);
  }
  | inr (out, up) ↦ elim (Bool-cases (trim_space out == "")) [
    | inl empty ↦ record {
      rounds = 0;
      bounded = omega arith;
      rest = [];
      split = rw (up, empty) refl;
      end = fails "docker returned no container id" refl (rw (up, empty) refl);
    }
    | inr named ↦
        let found = find_port w.port_at (container bytes) 60 0 in
        let (k, h, e) = find_port-polls w.port_at (container bytes) 60 0 in
        let inside = with_port w args bytes found.1 in
        let same : started w args bytes ≡ (found.0 ++ inside.0, inside.1) = rw (up, named) refl in
        record {
          rounds = k;
          bounded = h;
          rest = inside.0;
          split = ap (λ (r : List Action × Option String). r.0) same ∙ ap (λ l. l ++ inside.0) e;
          end =
              subst (λ (r : List Action × Option String). Ends w args bytes inside.0 r.1) (sym same)
                (with_port-Ends w args bytes found.1);
        }
  ]
]

-- What a run does: nothing, with an error; or it starts one container under a name and password
-- that are drawn, polls for its port, runs the command or fails, and removes the container.
pub data Trace (w : World) (args : List String) (actions : List Action) (e : Option String)
    : Type 0 where
  nothing : (message : String) → actions ≡ [] → e ≡ some message → Trace w args actions e
  cleaned :
      (bytes : List ℕ) (inner : List Action)
      → w.random ≡ some bytes
      → actions
        ≡ docker_run (container bytes) (new_password bytes)
          ∷ (inner ++ docker_rm (container bytes) ∷ [])
      → Inside w args bytes inner e
      → Trace w args actions e

-- Every run is one of these: it fails before it has started a container; or it starts one
-- container, polls for its port 60 times at most, fails or runs the command once, and at last
-- removes the container. The command runs only at a port that was found, and then the run ends well
-- exactly when the command does.
pub run_testdb-Trace :
    (w : World) (args : List String) → Trace w args (run_testdb w args).0 (run_testdb w args).1
unfolding run_testdb
run_testdb-Trace w args = elim (Bool-cases w.has_docker) [
  | inr missing ↦ nothing "docker is required" (rw missing refl) (rw missing refl)
  | inl there ↦ elim (Option-cases w.random) [
    | inl broken ↦ nothing "no random bytes" (rw (there, broken) refl) (rw (there, broken) refl)
    | inr (bytes, drawn) ↦
        let inner = started w args bytes in
        let same : run_testdb w args ≡ with_cleanup bytes inner = rw (there, drawn) refl in
        cleaned bytes inner.0 drawn (ap (λ (r : List Action × Option String). r.0) same) (
          subst (λ (r : List Action × Option String). Inside w args bytes inner.0 r.1) (sym same)
            (started-Inside w args bytes))
  ]
]
