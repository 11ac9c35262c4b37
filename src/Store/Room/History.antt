-- ===== src/Store/Room/History.antt =====
-- The tally of the rooms over calls of the room methods, and what an allocation gives.
use g_server.Common.{arith, subst, sym, ℕ, ◌≡◌, String, ℤ, Bool}
use g_server.Store.Room.Leave.{release_reservation-IsTallied}
use g_server.Store.Room.Entry.{allocate_room-IsTallied}
use g_server.Store.{Db, Link, RoomRecord}
use g_server.Store.Room.{Libs, register_room, heartbeat_room, allocate_room, release_reservation}
use g_server.Store.Room.Tally.{IsTallied}
use g_server.Store.Room.Register.{register_room-IsTallied, heartbeat_room-IsTallied}

module _ (lib : Libs) where
  -- A call of a room method, or anything that leaves the rooms and the reservations alone.
  pub data Step (db db' : Db) : Type 0 where
    registers :
        (link : Link) (x : RoomRecord) (now : ℕ)
        → db' ≡ (register_room link x now db).1
        → Step db db'
    beats :
        (link : Link) (id : String) (generation capacity : ℕ) (used : ℤ) (status : String) (now : ℕ)
        → db' ≡ (heartbeat_room link id generation capacity used status now db).1
        → Step db db'
    allocates :
        (link : Link) (locked : String → Bool) (player content : String) (proto : ℕ)
        (config : String) (now : ℕ)
        → db' ≡ (allocate_room lib link locked player content proto config now db).1
        → Step db db'
    releases :
        (link : Link) (room player : String) (now : ℕ)
        → db' ≡ (release_reservation link room player now db).1
        → Step db db'
    elsewhere : db'.rooms ≡ db.rooms → db'.reservations ≡ db.reservations → Step db db'

  pub data History (db : Db) : Db → Type 0 where
    here : History db db
    next : {d e : Db} → History db d → Step d e → History db e

  Step-IsTallied : {db db' : Db} → Step db db' → IsTallied db → IsTallied db'
  Step-IsTallied {db} (registers link x now e) v =
      subst IsTallied (sym e) (register_room-IsTallied link x now db v)
  Step-IsTallied {db} (beats link id generation capacity used status now e) v =
      subst IsTallied (sym e)
        (heartbeat_room-IsTallied link id generation capacity used status now db v)
  Step-IsTallied {db} (allocates link locked player content proto config now e) v =
      subst IsTallied (sym e)
        (allocate_room-IsTallied lib link locked player content proto config now db v)
  Step-IsTallied {db} (releases link room player now e) v =
      subst IsTallied (sym e) (release_reservation-IsTallied link room player now db v)
  Step-IsTallied (elsewhere a b) v = record {
    counted = λ id. ground (arith, a, b, v.counted id);
    single = λ player. ground (arith, b, v.single player);
    keyed = λ room player. ground (arith, b, v.keyed room player);
    rooms = λ id. ground (arith, a, v.rooms id);
  }

  -- Over any calls of the room methods that start on a tallied database, each room's players in use
  -- are as many as its active reservations, and a player has one active reservation at most.
  pub rooms_stay-IsTallied : {db db' : Db} → History db db' → IsTallied db → IsTallied db'
  rooms_stay-IsTallied here v = v
  rooms_stay-IsTallied (next h s) v = Step-IsTallied s (rooms_stay-IsTallied h v)
