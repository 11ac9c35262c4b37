-- ===== src/Store/Room/Entry.antt =====
-- Entering a room keeps the tally.
use g_server.Common.{
  count-none, count-le, count_single, count-append, count-update, if◌then◌else◌, ℕ, ◌+◌, ◌-◌,
  String, ◌≡◌, refl, Bool, true, ◌&&◌, Option, none, some, List, [], ◌∷◌, arith, number_key,
  text_key, text_iff, text_refl, find, count, find_holds, ◌≢◌, Option-cases, inl, inr, not,
  find-update,
}
use g_server.Store.{◌>>◌, Db, Link, ok, ReservationRow, RoomRecord, player_exists, pure}
use g_server.Store.Keeps.{settle_keeps, then_keeps}
use g_server.Store.Room.Leave.{leave_room-IsTallied, leave_room-gone}
use g_server.Store.Room.Tally.{IsTallied, used-take, is_active_in, room_keys}
use g_server.Store.Room.{
  leave_room, take_place, reserve, is_active_of, is_reservation, reservation_of, room_of, reserved,
  is_room, Libs, first_room, enter_room, allocate_room, is_free, move_to,
}

-- The place in the room, after `reserve`.
abbrev placed : String → Db → Db
placed room db = (take_place room db).1

enter_old :
    (room player : String) (old : ReservationRow) (row : RoomRecord) (db : Db)
    → IsTallied db
    → count (is_active_of player) db.reservations ≡ 0
    → reservation_of room player db ≡ some old
    → room_of room db ≡ some row
    → IsTallied (placed room (reserve room player (some old) db).1)
unfolding reserve take_place
enter_old room player old row db v gone found there =
    let owner = find_holds (is_reservation room player) db.reservations found in
    record {
      counted = λ id. ground (
        arith,
        v.counted id,
        owner,
        text_iff old.room_id room,
        used-take room id db.rooms there,
        count_single (is_reservation room player)
            (λ (r : ReservationRow). is_active_in id (reserved r)) db.reservations
            (v.keyed room player) found,
        count-update (is_active_in id) (is_reservation room player) reserved db.reservations,
        count-le (λ (r : ReservationRow). is_reservation room player r && is_active_in id r)
            (is_active_of player) db.reservations (λ r k. ground arith),
      );
      single = λ other. ground (
        arith,
        v.single other,
        owner,
        gone,
        text_iff old.player_id player,
        text_iff player other,
        count_single (is_reservation room player)
            (λ (r : ReservationRow). is_active_of other (reserved r)) db.reservations
            (v.keyed room player) found,
        count-update (is_active_of other) (is_reservation room player) reserved db.reservations,
      );
      keyed = λ r p. omega (
        arith,
        v.keyed r p,
        count-update (is_reservation r p) (is_reservation room player) reserved db.reservations,
      );
      rooms = λ id. room_keys id room (λ n. n + 1) db.rooms (v.rooms id);
    }

enter_new :
    (room player : String) (row : RoomRecord) (db : Db)
    → IsTallied db
    → count (is_active_of player) db.reservations ≡ 0
    → reservation_of room player db ≡ none
    → room_of room db ≡ some row
    → player_exists player db ≡ true
    → IsTallied (placed room (reserve room player none db).1)
unfolding reserve take_place
enter_new room player row db v gone found there known =
    let new : ReservationRow = record {
      room_id = room;
      player_id = player;
      released_at = none;
      status = 1;
    } in
    record {
      counted = λ id. ground (
        arith,
        known,
        v.counted id,
        used-take room id db.rooms there,
        count-append (is_active_in id) db.reservations new,
      );
      single = λ other. ground (
        arith,
        known,
        v.single other,
        gone,
        text_iff player other,
        count-append (is_active_of other) db.reservations new,
      );
      keyed = λ r p. ground (
        arith,
        known,
        v.keyed r p,
        text_iff room r,
        text_iff player p,
        count-none (is_reservation room player) db.reservations found,
        count-append (is_reservation r p) db.reservations new,
      );
      rooms =
          λ id. ground (arith, known, room_keys id room (λ (n : ℕ). n + 1) db.rooms (v.rooms id));
    }

pub reserve-known :
    (room player : String) (db : Db)
    → (reserve room player none db).0 ≡ ok tt
    → player_exists player db ≡ true
unfolding reserve
reserve-known room player db e = ground arith

reserve-IsTallied :
    (room player : String) (o : Option ReservationRow) (row : RoomRecord) (db : Db)
    → IsTallied db
    → count (is_active_of player) db.reservations ≡ 0
    → reservation_of room player db ≡ o
    → room_of room db ≡ some row
    → (reserve room player o db).0 ≡ ok tt
    → IsTallied (placed room (reserve room player o db).1)
reserve-IsTallied room player (some old) row db v gone found there e =
    enter_old room player old row db v gone found there
reserve-IsTallied room player none row db v gone found there e =
    enter_new room player row db v gone found there (reserve-known room player db e)

enter_room-IsTallied :
    (room player : String) (row : RoomRecord) (db : Db)
    → IsTallied db
    → count (is_active_of player) db.reservations ≡ 0
    → room_of room db ≡ some row
    → (enter_room room player db).0 ≡ ok tt
    → IsTallied (enter_room room player db).1
unfolding enter_room
enter_room-IsTallied room player row db v gone there e =
    then_keeps IsTallied (reserve room player (reservation_of room player db) db)
      (λ _. take_place room) e
      (λ a done _.
        reserve-IsTallied room player (reservation_of room player db) row db v gone refl there done)

pub leave_room-room_of :
    (player : String) (now : ℕ) (o : Option ReservationRow) (db : Db) (id : String)
    → room_of id db ≢ none
    → (row : RoomRecord) × room_of id (leave_room player now o db).1 ≡ some row
unfolding leave_room
leave_room-room_of player now none db id h = elim (Option-cases (room_of id db)) [
  | inl e ↦ absurd (h e)
  | inr found ↦ found
]
leave_room-room_of player now (some old) db id h = elim (Option-cases (room_of id db)) [
  | inl e ↦ absurd (h e)
  | inr (r, found) ↦
      let moved : RoomRecord → RoomRecord = λ r. record r { used_players = r.used_players - 1 } in
      (
        if is_room old.room_id r then moved r else r,
        ground (arith, find-update (is_room id) (is_room old.room_id) moved db.rooms (λ x. refl)),
      )
]

-- The player leaves a room and enters another.
change_room-IsTallied :
    (room player : String) (now : ℕ) (o : Option ReservationRow) (db : Db)
    → find (is_active_of player) db.reservations ≡ o
    → room_of room db ≢ none
    → IsTallied db
    → (enter_room room player (leave_room player now o db).1).0 ≡ ok tt
    → IsTallied (enter_room room player (leave_room player now o db).1).1
change_room-IsTallied room player now o db found there v e =
    let (row, h) = leave_room-room_of player now o db room there in
    enter_room-IsTallied room player row (leave_room player now o db).1
      (leave_room-IsTallied player now o db found v) (leave_room-gone player now o db found) h e

module _ (lib : Libs) where
  first_room_found :
      (p : RoomRecord → Bool) (rs : List RoomRecord) {r : RoomRecord}
      → first_room lib p rs ≡ some r
      → p r ≡ true × ¬ (find (is_room r.id) rs ≡ none)
  unfolding first_room find
  first_room_found p [] {r} e = absurd (ground arith)
  first_room_found p (x ∷ xs) {r} e =
      ground (arith, text_iff x.id r.id, text_refl r.id, first_room_found p xs {r = r})

  -- The player leaves a room and enters the one that was chosen.
  pub chosen-IsTallied :
      (p : RoomRecord → Bool) (player : String) (now : ℕ) (o : Option RoomRecord) (db : Db)
      {a : RoomRecord}
      → first_room lib p db.rooms ≡ o
      → IsTallied db
      → (move_to player now o db).0 ≡ ok a
      → IsTallied (move_to player now o db).1
  unfolding move_to
  chosen-IsTallied p player now none db found v e = absurd (ground arith)
  chosen-IsTallied p player now (some r) db found v e =
      let old = find (is_active_of player) db.reservations in
      then_keeps IsTallied (leave_room player now old db) (λ _. enter_room r.id player >> pure r) e
        (λ _ _ k.
          then_keeps IsTallied (enter_room r.id player (leave_room player now old db).1)
            (λ _. pure r) k
            (λ _ done _.
              change_room-IsTallied r.id player now old db refl
                (first_room_found p db.rooms found).1 v done))

  pub allocate_room-IsTallied :
      (link : Link) (locked : String → Bool) (player content : String) (proto : ℕ) (config : String)
      (now : ℕ) (db : Db)
      → IsTallied db
      → IsTallied (allocate_room lib link locked player content proto config now db).1
  unfolding allocate_room
  allocate_room-IsTallied link locked player content proto config now db v =
      settle_keeps IsTallied link db _ v (λ a e.
        chosen-IsTallied (λ r. is_free content proto config now r && not (locked r.id)) player now
          (first_room lib (λ r. is_free content proto config now r && not (locked r.id)) db.rooms)
          db refl v e)
