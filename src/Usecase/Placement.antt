-- ===== src/Usecase/Placement.antt =====
-- Backend/usecase/service.go: AllocateForMap, the room that a player is placed in.
use g_server.Common.{
  sym, subst, Option, none, some, true, false, refl, arith, String, Bool, ℕ, ◌≡◌, some, not,
}
use g_server.Libs.{Libs}
use g_server.Usecase.Service.{
  allocate_for_map, new_ticket, config_hash_for, or_release, valid_preset,
}
use g_server.Store.{
  or_raise, ◌>>=◌, ◌>>◌, pure, Link, Db, ok, Result, Error, Query, then_do, err, raise_if, pure,
  version_mismatch, ◌>>◌, map_unavailable,
}
use g_server.Domain.{Ticket, RoomRecord}
use g_server.Usecase.Maps.{MapDefinition, map_definition_for}
use g_server.Store.Room.{allocate_room}
use g_server.Store.Ticket.{issue_ticket}

-- A sequence that succeeds has a first statement that does, and a rest that does after it.
then_ok :
    {A B : Type 0} (r : Result A × Db) (rest : A → Query B) {b : B} {db' : Db}
    → then_do r rest ≡ (ok b, db')
    → (a : A) × (d : Db) × r ≡ (ok a, d) × rest a d ≡ (ok b, db')
then_ok (ok a, d) rest e = (a, d, refl, e)
then_ok (err x, d) rest e = absurd (ground arith)

-- A guard that lets pass and a value that is there.
guarded_ok :
    {B : Type 0} (test : Bool) (x : Error) (db : Db) (rest : Query B) {b : B} {db' : Db}
    → then_do (raise_if test x db) (λ _. rest) ≡ (ok b, db')
    → rest db ≡ (ok b, db')
guarded_ok true x db rest e = absurd (ground arith)
guarded_ok false x db rest e = e

found_ok :
    {A B : Type 0} (o : Option A) (x : Error) (db : Db) (rest : A → Query B) {b : B} {db' : Db}
    → then_do (or_raise x o db) rest ≡ (ok b, db')
    → (a : A) × o ≡ some a × rest a db ≡ (ok b, db')
found_ok none x db rest e = absurd (ground arith)
found_ok (some a) x db rest e = (a, refl, e)

pure_ok :
    {A B : Type 0} (a x : A) (b y : B) (d d' : Db)
    → pure {A = A × B} (a, b) d ≡ (ok (x, y), d')
    → x ≡ a × b ≡ y × d ≡ d'
pure_ok a x b y d d' e = ground (arith, e)

module _ (lib : Libs) where
  or_release_ok :
      (link : Link) (id player : String) (now : ℕ) (m : Query (Ticket × RoomRecord)) (db db' : Db)
      {a : Ticket × RoomRecord}
      → or_release lib link id player now m db ≡ (ok a, db')
      → m db ≡ (ok a, db')
  or_release_ok link id player now m db db' {a} e = ground arith

  -- What a placement that succeeds has done: it allocated the room and issued the ticket that names it.
  allocate_for_map-eq :
      (alloc issue release : Link) (locked : String → Bool)
      (player session_hash p c map_id : String) (n : ℕ) (token : String) (now : ℕ) (db db' : Db)
      {x : Ticket} {r : RoomRecord}
      → allocate_for_map lib alloc issue release locked player session_hash p c map_id n token now
          db
        ≡ (ok (x, r), db')
      → (m : MapDefinition) × map_definition_for map_id ≡ some m
        × x ≡ new_ticket lib token player r.id p c n m
        × (d : Db) × allocate_room lib alloc locked player c n (config_hash_for lib p c) now db
            ≡ (ok r, d)
        × issue_ticket issue x (lib.sha256_hex token) session_hash now d ≡ (ok tt, db')
  unfolding allocate_for_map
  allocate_for_map-eq alloc issue release locked player session_hash p c map_id n token now db db'
        {x} {r} e =
      let ticket_in : MapDefinition → RoomRecord → Ticket =
        λ m q. new_ticket lib token player q.id p c n m in
      let issuing : MapDefinition → RoomRecord → Query (Ticket × RoomRecord) = λ m q.
        issue_ticket issue (ticket_in m q) (lib.sha256_hex token) session_hash now
        >> pure (ticket_in m q, q) in
      let placing : MapDefinition → Query (Ticket × RoomRecord) = λ m.
        allocate_room lib alloc locked player c n (config_hash_for lib p c) now
        >>= (λ q. or_release lib release q.id player now (issuing m q)) in
      let e' =
        guarded_ok (not (valid_preset p c n)) version_mismatch db
          (or_raise map_unavailable (map_definition_for map_id) >>= placing) e in
      let (m, known, e'') = found_ok (map_definition_for map_id) map_unavailable db placing e' in
      let (q, d, placed, after) =
        then_ok (allocate_room lib alloc locked player c n (config_hash_for lib p c) now db)
          (λ q. or_release lib release q.id player now (issuing m q)) e'' in
      let (_, d', done, last) =
        then_ok (issue_ticket issue (ticket_in m q) (lib.sha256_hex token) session_hash now d)
          (λ _. pure (ticket_in m q, q)) {b = (x, r)} {db' = db'}
          (or_release_ok release q.id player now (issuing m q) d db' after) in
      let (named, same, state) = pure_ok (ticket_in m q) x q r d' db' last in
      (
        m,
        known,
        subst (λ (s : RoomRecord). x ≡ ticket_in m s) same named,
        d,
        subst
            (λ (s : RoomRecord).
              allocate_room lib alloc locked player c n (config_hash_for lib p c) now db
              ≡ (ok s, d))
            same placed,
        subst
            (λ (t : Ticket).
              issue_ticket issue t (lib.sha256_hex token) session_hash now d ≡ (ok tt, db'))
            (sym named)
            (subst
              (λ (s : Db).
                issue_ticket issue (ticket_in m q) (lib.sha256_hex token) session_hash now d
                ≡ (ok tt, s))
              state done),
      )

  -- The room that a player is placed in does not depend on the map that the player asks for, and the
  -- ticket is for the asked one.
  pub allocate_for_map_any_map :
      (alloc issue release : Link) (locked : String → Bool) (player session_hash p c a b : String)
      (n : ℕ) (token : String) (now : ℕ) (db da db' : Db) {x y : Ticket} {r s : RoomRecord}
      → allocate_for_map lib alloc issue release locked player session_hash p c a n token now db
        ≡ (ok (x, r), da)
      → allocate_for_map lib alloc issue release locked player session_hash p c b n token now db
        ≡ (ok (y, s), db')
      → r ≡ s
        × (m : MapDefinition) × map_definition_for a ≡ some m
        × x.map_id ≡ m.id
        × (k : MapDefinition) × map_definition_for b ≡ some k
        × y.map_id ≡ k.id
  allocate_for_map_any_map alloc issue release locked player session_hash p c a b n token now db da
        db' {x} {y} {r} {s} e f =
      let (m, known, same, d, placed, issued) =
        allocate_for_map-eq alloc issue release locked player session_hash p c a n token now db da
          {x = x} {r = r} e in
      let (k, known', same', d', placed', issued') =
        allocate_for_map-eq alloc issue release locked player session_hash p c b n token now db db'
          {x = y} {r = s} f in
      (
        ground (arith, placed, placed'),
        m,
        known,
        ground (arith, same),
        k,
        known',
        ground (arith, same'),
      )
