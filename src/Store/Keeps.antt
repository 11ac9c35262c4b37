-- ===== src/Store/Keeps.antt =====
-- What a transaction, a sequence of statements and a guard keep of the database.
use g_server.Common.{false, ◌≡◌, refl, Bool, true, Option, none, some, arith, number_key, text_key}
use g_server.Store.{
  Error, or_raise, raise_if, up, begin_fails, commit_fails, ack_lost, settle, Db, Link, ok, Result,
  settle, err, Query, then_do,
}

-- What a body that succeeds keeps, its transaction keeps however the connection behaves.
pub settle_keeps :
    {A : Type 0} (P : Db → Type 0) (link : Link) (db : Db) (r : Result A × Db)
    → P db
    → ((a : A) → r.0 ≡ ok a → P r.1)
    → P (settle link db r).1
settle_keeps P begin_fails db r h k = h
settle_keeps P up db (ok a, d) h k = k a refl
settle_keeps P up db (err e, d) h k = h
settle_keeps P commit_fails db (ok a, d) h k = h
settle_keeps P commit_fails db (err e, d) h k = h
settle_keeps P ack_lost db (ok a, d) h k = k a refl
settle_keeps P ack_lost db (err e, d) h k = h

-- What holds after a statement that succeeds and those after it.
pub then_keeps :
    {A B : Type 0} (P : Db → Type 0) (r : Result A × Db) (rest : A → Query B) {b : B}
    → (then_do r rest).0 ≡ ok b
    → ((a : A) → r.0 ≡ ok a → (rest a r.1).0 ≡ ok b → P (rest a r.1).1)
    → P (then_do r rest).1
then_keeps P (ok a, db) rest e h = h a refl e
then_keeps P (err x, db) rest e h = absurd (ground arith)

-- A guard writes nothing.
pub raise_if_keeps :
    {B : Type 0} (P : Db → Type 0) (test : Bool) (x : Error) (db : Db) (rest : Unit {0} → Query B)
    → P db
    → P (rest tt db).1
    → P (then_do (raise_if test x db) rest).1
raise_if_keeps P true x db rest h k = h
raise_if_keeps P false x db rest h k = k

pub or_raise_keeps :
    {A B : Type 0} (P : Db → Type 0) (o : Option A) (x : Error) (db : Db) (rest : A → Query B)
    → P db
    → ((a : A) → P (rest a db).1)
    → P (then_do (or_raise x o db) rest).1
or_raise_keeps P none x db rest h k = h
or_raise_keeps P (some a) x db rest h k = k a
