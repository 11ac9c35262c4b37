-- ===== src/Store/Room/Leave.antt =====
-- Leaving a room keeps the tally.
use g_server.Common.{
  count-none, count-le, ℕ, ◌-◌, String, ◌≡◌, refl, subst, ◌&&◌, Option, none, some, arith,
  number_key, text_key, text_iff, find, update, count, find_holds,
}
use g_server.Store.{Db, Link, ReservationRow}
use g_server.Store.Room.Tally.{IsTallied, vacated-IsTallied, active-released}
use g_server.Store.Room.{
  leave_room, release_reservation, is_active_of, is_reservation, released, release_row,
  is_active_reservation, is_room,
}
use g_server.Store.Keeps.{settle_keeps}

pub leave_room-IsTallied :
    (player : String) (now : ℕ) (o : Option ReservationRow) (db : Db)
    → find (is_active_of player) db.reservations ≡ o
    → IsTallied db
    → IsTallied (leave_room player now o db).1
unfolding leave_room
leave_room-IsTallied player now none db found v = v
leave_room-IsTallied player now (some old) db found v =
    vacated-IsTallied (is_active_of player) now (λ _. 0) old db v found (v.single player)
      (ground (arith, find_holds (is_active_of player) db.reservations found))

-- Afterwards the player has no active reservation.
pub leave_room-gone :
    (player : String) (now : ℕ) (o : Option ReservationRow) (db : Db)
    → find (is_active_of player) db.reservations ≡ o
    → count (is_active_of player) (leave_room player now o db).1.reservations ≡ 0
unfolding leave_room
leave_room-gone player now none db found = count-none (is_active_of player) db.reservations found
leave_room-gone player now (some old) db found = omega (
  arith,
  active-released (is_active_of player) (released now) (is_active_of player) db.reservations
      (λ r. ground arith),
  count-le (is_active_of player)
      (λ (r : ReservationRow). is_active_of player r && is_active_of player r) db.reservations
      (λ r k. ground arith),
)

release_row-IsTallied :
    (room player : String) (now : ℕ) (o : Option ReservationRow) (db : Db)
    → find (is_active_reservation room player) db.reservations ≡ o
    → IsTallied db
    → IsTallied (release_row room player now o db).1
unfolding release_row
release_row-IsTallied room player now none db found v = v
release_row-IsTallied room player now (some old) db found v =
    subst
      (λ (id : String). IsTallied (record db {
        reservations =
            update (is_active_reservation room player) (λ r. record r { released_at = some now })
              db.reservations;
        rooms = update (is_room id) (λ r. record r { used_players = r.used_players - 1 }) db.rooms;
      }))
      (ground (
        arith,
        text_iff old.room_id room,
        find_holds (is_active_reservation room player) db.reservations found,
      ))
      (vacated-IsTallied (is_active_reservation room player) now (λ n. n) old db v found
        (omega (
          arith,
          v.keyed room player,
          count-le (is_active_reservation room player) (is_reservation room player) db.reservations
              (λ r k. ground arith),
        ))
        (ground (arith, find_holds (is_active_reservation room player) db.reservations found)))

pub release_reservation-IsTallied :
    (link : Link) (room player : String) (now : ℕ) (db : Db)
    → IsTallied db
    → IsTallied (release_reservation link room player now db).1
unfolding release_reservation
release_reservation-IsTallied link room player now db v =
    settle_keeps IsTallied link db
      (release_row room player now (find (is_active_reservation room player) db.reservations) db) v
      (λ a e.
        release_row-IsTallied room player now
          (find (is_active_reservation room player) db.reservations) db refl v)
