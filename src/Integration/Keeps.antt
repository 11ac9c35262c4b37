-- ===== src/Integration/Keeps.antt =====
-- What a run of the integration test holds and prints, and how the parts of the script compose.
use g_server.Common.{
  ℕ, ◌+◌, Bool, true, false, Option, none, some, List, [], ◌∷◌, ◌++◌, String, ◌≡◌, refl, ap, ◌∙◌,
  arith, if◌then◌else◌,
}
use g_server.Integration.Script.{
  World, Resource, directory, pool, process, Event, make_temp, open_pool, start, kill, print_logs,
  close_pool, remove_temp, print, Run, Outcome, passed, failed, Script, go_on, ◌>>=◌, ◌>>◌, fail_if,
  later, trace_of, settled, perform, acquire, note, done,
}
use g_server.Integration.Setup.{start_process}

abbrev pub acquired_by : Event → List Resource
acquired_by make_temp = directory ∷ []
acquired_by open_pool = pool ∷ []
acquired_by (start name args env) = process name ∷ []
acquired_by _ = []

abbrev pub released_by : Event → List Resource
released_by remove_temp = directory ∷ []
released_by close_pool = pool ∷ []
released_by (kill name) = process name ∷ []
released_by _ = []

-- The resources that the events have acquired, the latest first.
abbrev pub acquired : List Event → List Resource
acquired [] = []
acquired (e ∷ trace) = acquired_by e ++ acquired trace

-- Those that the deferred calls release, in their order.
abbrev pub released : List Event → List Resource
released [] = []
released (e ∷ deferred) = released_by e ++ released deferred

abbrev pub printed_by : Event → ℕ
printed_by (print line) = 1
printed_by _ = 0

abbrev pub prints : List Event → ℕ
prints [] = 0
prints (e ∷ trace) = printed_by e + prints trace

abbrev pub has_passed : Outcome (Unit {0}) → ℕ
has_passed (passed x) = 1
has_passed (failed message) = 0

abbrev pub IsPaired : Run → Type 0
IsPaired r = released r.deferred ≡ acquired r.trace

-- A part of the script that releases what it acquires and prints nothing.
pub record Keeps {A : Type 0} (q : Script A) : Type 0 where
  pub paired : (r : Run) → IsPaired r → IsPaired (q r).1
  pub silent : (r : Run) → prints (q r).1.trace ≡ prints r.trace

-- One that prints a line when it has passed.
pub record Reports (q : Script (Unit {0})) : Type 0 where
  pub paired : (r : Run) → IsPaired r → IsPaired (q r).1
  pub reported : (r : Run) → prints (q r).1.trace ≡ has_passed (q r).0 + prints r.trace

go_on-Keeps :
    {A B : Type 0} (o : Outcome A × Run) (f : A → Script B)
    → ((a : A) → Keeps (f a))
    → IsPaired o.1
    → IsPaired (go_on o f).1 × (prints (go_on o f).1.trace ≡ prints o.1.trace)
go_on-Keeps (passed a, r) f k h = ((k a).paired r h, (k a).silent r)
go_on-Keeps (failed m, r) f k h = (h, refl)

go_on-prints :
    {A B : Type 0} (o : Outcome A × Run) (f : A → Script B)
    → ((a : A) → Keeps (f a))
    → prints (go_on o f).1.trace ≡ prints o.1.trace
go_on-prints (passed a, r) f k = (k a).silent r
go_on-prints (failed m, r) f k = refl

pub Keeps-bind :
    {A B : Type 0} {p : Script A} {f : A → Script B}
    → Keeps p
    → ((a : A) → Keeps (f a))
    → Keeps (p >>= f)
Keeps-bind {p = p} {f = f} kp kf = record {
  paired = λ r h. (go_on-Keeps (p r) f kf (kp.paired r h)).0;
  silent = λ r. go_on-prints (p r) f kf ∙ kp.silent r;
}

pub Keeps-then : {A B : Type 0} {p : Script A} {q : Script B} → Keeps p → Keeps q → Keeps (p >> q)
Keeps-then kp kq = Keeps-bind kp (λ _. kq)

settled-IsPaired :
    (o : Option String) (e : Event) (r : Run)
    → acquired_by e ≡ []
    → IsPaired r
    → IsPaired (settled o e r).1
settled-IsPaired none e r a h = rw a h
settled-IsPaired (some m) e r a h = h

settled-prints :
    (o : Option String) (e : Event) (r : Run)
    → printed_by e ≡ 0
    → prints (settled o e r).1.trace ≡ prints r.trace
settled-prints none e r a = omega (arith, a)
settled-prints (some m) e r a = refl

pub Keeps-perform :
    (w : World) (e : Event) → acquired_by e ≡ [] → printed_by e ≡ 0 → Keeps (perform w e)
unfolding perform
Keeps-perform w e a p = record {
  paired = λ r h. settled-IsPaired (w.fails r.trace e) e r a h;
  silent = λ r. settled-prints (w.fails r.trace e) e r p;
}

acquire-IsPaired :
    (o : Option String) (e release : Event) (r : Run)
    → acquired_by e ≡ released_by release
    → IsPaired r
    → IsPaired (go_on (settled o e r) (λ _. later release)).1
unfolding later
acquire-IsPaired none e release r a h = rw a (ap (λ l. released_by release ++ l) h)
acquire-IsPaired (some m) e release r a h = h

acquire-prints :
    (o : Option String) (e release : Event) (r : Run)
    → printed_by e ≡ 0
    → prints (go_on (settled o e r) (λ _. later release)).1.trace ≡ prints r.trace
unfolding later
acquire-prints none e release r p = omega (arith, p)
acquire-prints (some m) e release r p = refl

pub Keeps-acquire :
    (w : World) (e release : Event)
    → acquired_by e ≡ released_by release
    → printed_by e ≡ 0
    → Keeps (acquire w e release)
unfolding acquire perform
Keeps-acquire w e release a p = record {
  paired = λ r h. acquire-IsPaired (w.fails r.trace e) e release r a h;
  silent = λ r. acquire-prints (w.fails r.trace e) e release r p;
}

fail_if-same : (b : Bool) (m : String) (r : Run) → (fail_if b m r).1 ≡ r
unfolding fail_if
fail_if-same true m r = refl
fail_if-same false m r = refl

pub Keeps-fail_if : (b : Bool) (m : String) → Keeps (fail_if b m)
Keeps-fail_if b m = record {
  paired = λ r h. rw (fail_if-same b m r) h;
  silent = λ r. ap (λ (s : Run). prints s.trace) (fail_if-same b m r);
}

pub Keeps-trace_of : {A : Type 0} (f : List Event → A) → Keeps (trace_of f)
unfolding trace_of
Keeps-trace_of f = record { paired = λ r h. h; silent = λ r. refl }

pub Keeps-done : Keeps done
Keeps-done = record { paired = λ r h. h; silent = λ r. refl }

pub Keeps-print_logs : Keeps (later print_logs)
unfolding later
Keeps-print_logs = record { paired = λ r h. h; silent = λ r. refl }

pub Keeps-kill : (name : String) → Keeps (note (kill name))
unfolding note
Keeps-kill name = record { paired = λ r h. h; silent = λ r. omega arith }

pub Keeps-start_process :
    (w : World) (name : String) (args extra : List String) → Keeps (start_process w name args extra)
unfolding start_process
Keeps-start_process w name args extra = Keeps-acquire w _ _ refl refl

pub Reports-print : (line : String) → Reports (note (print line))
unfolding note
Reports-print line = record { paired = λ r h. h; reported = λ r. refl }

go_on-Reports :
    {A : Type 0} (o : Outcome A × Run) (f : A → Script (Unit {0}))
    → ((a : A) → Reports (f a))
    → (IsPaired o.1 → IsPaired (go_on o f).1)
      × (prints (go_on o f).1.trace ≡ has_passed (go_on o f).0 + prints o.1.trace)
go_on-Reports (passed a, r) f k = (λ h. (k a).paired r h, (k a).reported r)
go_on-Reports (failed m, r) f k = (λ h. h, omega arith)

pub Reports-bind :
    {A : Type 0} {p : Script A} {f : A → Script (Unit {0})}
    → Keeps p
    → ((a : A) → Reports (f a))
    → Reports (p >>= f)
Reports-bind {p = p} {f = f} kp kf = record {
  paired = λ r h. (go_on-Reports (p r) f kf).0 (kp.paired r h);
  reported =
      λ r. (go_on-Reports (p r) f kf).1 ∙ ap (λ n. has_passed (go_on (p r) f).0 + n) (kp.silent r);
}

pub Reports-then :
    {A : Type 0} {p : Script A} {q : Script (Unit {0})} → Keeps p → Reports q → Reports (p >> q)
Reports-then kp kq = Reports-bind kp (λ _. kq)

pub Reports-if :
    (b : Bool) {p q : Script (Unit {0})} → Reports p → Reports q → Reports (if b then p else q)
Reports-if true rp rq = rp
Reports-if false rp rq = rq

pub ruleset keeping = (
  Keeps-bind, Keeps-then, Keeps-perform, Keeps-acquire, Keeps-fail_if, Keeps-trace_of, Keeps-done,
  Keeps-print_logs, Keeps-kill, Keeps-start_process,
)

pub ruleset reporting = (Reports-then, Reports-bind, Reports-print, Reports-if)
