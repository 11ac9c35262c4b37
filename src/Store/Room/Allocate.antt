-- ===== src/Store/Room/Allocate.antt =====
-- What an allocation gives the player: a place in a room that was ready, fresh and had one free.
use g_server.Common.{
  not, ◌&&◌, refl, ◌+◌, none, some, [], ◌∷◌, Bool, true, false, arith, subst, sym, Option, ap,
  String, find, ℕ, count, Bool, List, ◌≡◌, ◌≤◌, some, true, ◌∷◌, text_iff, text_refl,
  find-append_new, find-update, find_holds,
}
use g_server.Store.Keeps.{then_keeps}
use g_server.Store.Room.Entry.{reserve-known, leave_room-room_of, chosen-IsTallied}
use g_server.Store.{
  up, begin_fails, commit_fails, ack_lost, settle, err, then_do, up, ◌>>◌, ReservationRow, Db,
  RoomRecord, ok, Result, Query, pure, err, Link,
}
use g_server.Store.Room.{
  move_to, leave_room, enter_room, take_place, reserve, Libs, first_room, reservation_of, room_of,
  is_room, is_active, is_reservation, reserved, is_active_of, is_free, allocate_room,
}
use g_server.Store.Room.Tally.{used_of, used-free, used-take, IsTallied, is_active_in}

abbrev pub in_use : Option ReservationRow → Bool
in_use none = false
in_use (some r) = is_active r

-- The room has no more players than `most`, and the player is active in it.
pub record IsPlaced (room player : String) (most : ℕ) (db : Db) : Type 0 where
  pub bounded : used_of (room_of room db) ≤ most
  pub holds : in_use (reservation_of room player db) ≡ true

count-some {ℓ} :
    {A : Type ℓ} (q : A → Bool) (xs : List A) {x : A} → find q xs ≡ some x → 1 ≤ count q xs
unfolding find count
count-some q [] e = absurd (ground arith)
count-some q (y ∷ xs) {x} e = ground (arith, count-some q xs {x = x})

module _ (lib : Libs) where
  first_room_row :
      (p : RoomRecord → Bool) (rs : List RoomRecord) {r : RoomRecord}
      → ((id : String) → count (is_room id) rs ≤ 1)
      → first_room lib p rs ≡ some r
      → p r ≡ true × find (is_room r.id) rs ≡ some r
  unfolding first_room find count
  first_room_row p [] u e = absurd (ground arith)
  first_room_row p (x ∷ xs) {r} u e = ground (
    arith,
    text_iff x.id r.id,
    text_refl r.id,
    u r.id,
    first_room_row p xs {r = r} (λ id. ground (arith, u id)),
    count-some (is_room r.id) xs {x = r},
  )

used-leave :
    (player : String) (now : ℕ) (o : Option ReservationRow) (db : Db) (id : String)
    → used_of (room_of id (leave_room player now o db).1) ≤ used_of (room_of id db)
unfolding leave_room
used-leave player now none db id = omega arith
used-leave player now (some old) db id = omega (arith, used-free old.room_id id db.rooms)

reserve-holds :
    (room player : String) (o : Option ReservationRow) (db : Db)
    → reservation_of room player db ≡ o
    → (reserve room player o db).0 ≡ ok tt
    → in_use (reservation_of room player (reserve room player o db).1) ≡ true
      × (reserve room player o db).1.rooms ≡ db.rooms
unfolding reserve
reserve-holds room player none db found e =
    let new : ReservationRow = record {
      room_id = room;
      player_id = player;
      released_at = none;
      status = 1;
    } in
    ground (
      arith,
      reserve-known room player db e,
      find-append_new (is_reservation room player) db.reservations new found
          (ground (arith, text_refl room, text_refl player)),
    )
reserve-holds room player (some old) db found e = ground (
  arith,
  found,
  find_holds (is_reservation room player) db.reservations found,
  find-update (is_reservation room player) (is_reservation room player) reserved db.reservations
      (λ x. refl),
)

enter_room-IsPlaced :
    (room player : String) (row : RoomRecord) (db : Db)
    → room_of room db ≡ some row
    → (enter_room room player db).0 ≡ ok tt
    → IsPlaced room player (row.used_players + 1) (enter_room room player db).1
unfolding enter_room take_place
enter_room-IsPlaced room player row db there e =
    then_keeps (IsPlaced room player (row.used_players + 1))
      (reserve room player (reservation_of room player db) db) (λ _. take_place room) e
      (λ _ done _. record {
        bounded = ground (
          arith,
          there,
          text_refl room,
          reserve-holds room player (reservation_of room player db) db refl done,
          used-take room room db.rooms there,
        );
        holds = (reserve-holds room player (reservation_of room player db) db refl done).0;
      })

more :
    (room player : String) (n m : ℕ) (db : Db)
    → n ≤ m
    → IsPlaced room player n db
    → IsPlaced room player m db
more room player n m db h v = record { bounded = ground (arith, v.bounded, h); holds = v.holds }

then_answers :
    {A B G : Type 0} (r : Result A × Db) (rest : A → Query B) {b : B}
    → (then_do r rest).0 ≡ ok b
    → ((a : A) (d : Db) → (rest a d).0 ≡ ok b → G)
    → G
then_answers (ok a, db) rest e h = h a db e
then_answers (err x, db) rest e h = absurd (ground arith)

pure_answers : {A : Type 0} (r a : A) → ok r ≡ ok a → a ≡ r
pure_answers r a e = ground (arith, e)

-- The chosen row is answered; it had a place, and the player has it afterwards.
move_to-answer :
    (player : String) (now : ℕ) (r : RoomRecord) (db : Db) {a : RoomRecord}
    → (move_to player now (some r) db).0 ≡ ok a
    → a ≡ r
unfolding move_to
move_to-answer player now r db {a} e =
    then_answers (leave_room player now (find (is_active_of player) db.reservations) db)
      (λ _. enter_room r.id player >> pure r) e
      (λ _ d k.
        then_answers (enter_room r.id player d) (λ _. pure r) k (λ _ _ done. pure_answers r a done))

move_to-IsPlaced :
    (player : String) (now : ℕ) (r : RoomRecord) (db : Db) {a : RoomRecord}
    → room_of r.id db ≡ some r
    → (move_to player now (some r) db).0 ≡ ok a
    → IsPlaced r.id player (r.used_players + 1) (move_to player now (some r) db).1
unfolding move_to
move_to-IsPlaced player now r db {a} there e =
    let old = find (is_active_of player) db.reservations in
    let (row, h) = leave_room-room_of player now old db r.id (ground (arith, there)) in
    then_keeps (IsPlaced r.id player (r.used_players + 1)) (leave_room player now old db)
      (λ _. enter_room r.id player >> pure r) e
      (λ _ _ k.
        then_keeps (IsPlaced r.id player (r.used_players + 1))
          (enter_room r.id player (leave_room player now old db).1) (λ _. pure r) k
          (λ _ done _.
            more r.id player (row.used_players + 1) (r.used_players + 1) _
              (ground (arith, there, h, used-leave player now old db r.id))
              (enter_room-IsPlaced r.id player row (leave_room player now old db).1 h done)))

module _ (lib : Libs) where
  chosen-IsPlaced :
      (p : RoomRecord → Bool) (player : String) (now : ℕ) (o : Option RoomRecord) (db : Db)
      {a : RoomRecord}
      → first_room lib p db.rooms ≡ o
      → IsTallied db
      → (move_to player now o db).0 ≡ ok a
      → p a ≡ true
        × room_of a.id db ≡ some a
        × IsPlaced a.id player (a.used_players + 1) (move_to player now o db).1
  unfolding move_to
  chosen-IsPlaced p player now none db found v e = absurd (ground arith)
  chosen-IsPlaced p player now (some r) db {a} found v e =
      let (fits, there) = first_room_row lib p db.rooms (λ id. v.rooms id) found in
      subst
        (λ x.
          p x ≡ true
          × room_of x.id db ≡ some x
          × IsPlaced x.id player (x.used_players + 1) (move_to player now (some r) db).1)
        (sym (move_to-answer player now r db e))
        (fits, there, move_to-IsPlaced player now r db there e)

  pub record Allocated (player content : String) (proto : ℕ) (config : String) (now : ℕ)
      (r : RoomRecord) (db db' : Db) : Type 0 where
    pub row : room_of r.id db ≡ some r
    pub free : is_free content proto config now r ≡ true
    pub active : in_use (reservation_of r.id player db') ≡ true
    pub fits : count (is_active_in r.id) db'.reservations ≤ r.capacity

  settle_answers :
      {A : Type 0} (link : Link) (db db' : Db) (r : Result A × Db) {a : A}
      → settle link db r ≡ (ok a, db')
      → r ≡ (ok a, db')
  settle_answers up db d (ok a, db') e = e
  settle_answers up db d (err x, db') e = absurd (ground arith)
  settle_answers begin_fails db d r e = absurd (ground arith)
  settle_answers commit_fails db d (ok a, db') e = absurd (ground arith)
  settle_answers commit_fails db d (err x, db') e = absurd (ground arith)
  settle_answers ack_lost db d (ok a, db') e = absurd (ground arith)
  settle_answers ack_lost db d (err x, db') e = absurd (ground arith)

  -- On a tallied database, a room that an allocation answers was ready, fresh, of the wanted version
  -- and hashes and not locked, and afterwards the player is active in it, which no more players are
  -- than its capacity.
  pub allocate_room-fits :
      (link : Link) (locked : String → Bool) (player content : String) (proto : ℕ) (config : String)
      (now : ℕ) (r : RoomRecord) (db db' : Db)
      → IsTallied db
      → allocate_room lib link locked player content proto config now db ≡ (ok r, db')
      → locked r.id ≡ false × Allocated player content proto config now r db db'
  unfolding allocate_room
  allocate_room-fits link locked player content proto config now r db db' v e =
      let p : RoomRecord → Bool = λ x. is_free content proto config now x && not (locked x.id) in
      let done = settle_answers link db db' (move_to player now (first_room lib p db.rooms) db) e in
      let (ready, there, placed) =
        chosen-IsPlaced p player now (first_room lib p db.rooms) db refl v (ap (λ x. x.0) done) in
      let tallied =
        chosen-IsTallied lib p player now (first_room lib p db.rooms) db refl v
          (ap (λ x. x.0) done) in
      (
        ground (arith, ready),
        record {
          row = there;
          free = ground (arith, ready);
          active = ground (arith, done, placed.holds);
          fits = ground (arith, done, ready, placed.bounded, tallied.counted r.id);
        },
      )
