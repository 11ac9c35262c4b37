-- ===== src/Store/Room/Tally.antt =====
-- The number of players in use is the number of active reservations.
use g_server.Common.{
  count-update, count-le, count_single, count-false, ℕ, ◌+◌, ◌-◌, ◌≤◌, String, ◌≡◌, refl, inl, inr,
  Bool, true, false, ◌&&◌, Option, none, some, List, arith, if◌then◌else◌, ◌==◌, number_key,
  text_key, text_iff, Option-cases, find, update, count, find-update, find_holds,
}
use g_server.Domain.{RoomRecord}
use g_server.Store.{Db, ReservationRow}
use g_server.Store.Room.{is_room, room_of, is_active, is_active_of, is_reservation}

abbrev pub is_active_in : String → ReservationRow → Bool
is_active_in room r = r.room_id == room && is_active r

abbrev pub used_of : Option RoomRecord → ℕ
used_of none = 0
used_of (some r) = r.used_players

-- Each room counts its active reservations, a room that does not exist has none, a player has one
-- at most, and the keys of both tables are unique.
pub record IsTallied (db : Db) : Type 0 where
  pub counted : (id : String) → used_of (room_of id db) ≡ count (is_active_in id) db.reservations
  pub single : (player : String) → count (is_active_of player) db.reservations ≤ 1
  pub keyed : (room player : String) → count (is_reservation room player) db.reservations ≤ 1
  pub rooms : (id : String) → count (is_room id) db.rooms ≤ 1

pub used-free :
    (k id : String) (rs : List RoomRecord)
    → used_of (
        find
          (is_room id)
          (update (is_room k) (λ r. record r { used_players = r.used_players - 1 }) rs))
      ≡ used_of (find (is_room id) rs) - (if k == id then 1 else 0)
used-free k id rs = elim (Option-cases (find (is_room id) rs)) [
  | inl absent ↦ ground (
    arith,
    find-update (is_room id) (is_room k)
        (λ (r : RoomRecord). record r { used_players = r.used_players - 1 }) rs (λ x. refl),
  )
  | inr (x, found) ↦ ground (
    arith,
    text_iff x.id id,
    text_iff x.id k,
    text_iff k id,
    find_holds (is_room id) rs found,
    find-update (is_room id) (is_room k)
        (λ (r : RoomRecord). record r { used_players = r.used_players - 1 }) rs (λ x. refl),
  )
]

pub used-take :
    (k id : String) (rs : List RoomRecord) {row : RoomRecord}
    → find (is_room k) rs ≡ some row
    → used_of (
        find
          (is_room id)
          (update (is_room k) (λ r. record r { used_players = r.used_players + 1 }) rs))
      ≡ used_of (find (is_room id) rs) + (if k == id then 1 else 0)
used-take k id rs {row} there = elim (Option-cases (find (is_room id) rs)) [
  | inl absent ↦ ground (
    arith,
    text_iff k id,
    find-update (is_room id) (is_room k)
        (λ (r : RoomRecord). record r { used_players = r.used_players + 1 }) rs (λ x. refl),
  )
  | inr (x, found) ↦ ground (
    arith,
    text_iff x.id id,
    text_iff x.id k,
    text_iff k id,
    find_holds (is_room id) rs found,
    find-update (is_room id) (is_room k)
        (λ (r : RoomRecord). record r { used_players = r.used_players + 1 }) rs (λ x. refl),
  )
]

-- How many active reservations of the player are in the room, after they are released.
pub active-released :
    (p : ReservationRow → Bool) (f : ReservationRow → ReservationRow) (q : ReservationRow → Bool)
    (rs : List ReservationRow)
    → ((r : ReservationRow) → q (f r) ≡ false)
    → count q (update p f rs) + count (λ r. p r && q r) rs ≡ count q rs
active-released p f q rs h = omega (
  arith,
  count-update q p f rs,
  count-le (λ (r : ReservationRow). p r && q (f r)) (λ (r : ReservationRow). false) rs
      (λ r k. ground (arith, h r)),
  count-false rs,
)

-- A change of the players in use keeps the keys.
pub room_keys :
    (id k : String) (f : ℕ → ℕ) (rs : List RoomRecord)
    → count (is_room id) rs ≤ 1
    → count (is_room id) (update (is_room k) (λ r. record r { used_players = f r.used_players }) rs)
      ≤ 1
room_keys id k f rs h = omega (
  arith,
  count-update (is_room id) (is_room k)
      (λ (r : RoomRecord). record r { used_players = f r.used_players }) rs,
)

-- Active reservations are released and their room has one place more: the rows that `p` selects, one
-- at most, of which `old` is the first.
module _ (p : ReservationRow → Bool) (now : ℕ) (status : ℕ → ℕ) (old : ReservationRow)
    (db : Db) where
  abbrev pub vacate : ReservationRow → ReservationRow
  vacate r = record r { released_at = some now; status = status r.status }

  abbrev pub vacated : Db
  vacated = record db {
    reservations = update p vacate db.reservations;
    rooms =
        update (is_room old.room_id) (λ r. record r { used_players = r.used_players - 1 }) db.rooms;
  }

  pub vacated-count :
      (q : ReservationRow → Bool)
      → ((r : ReservationRow) → q (vacate r) ≡ q r)
      → count q vacated.reservations ≡ count q db.reservations
  vacated-count q h = omega (
    arith,
    count-update q p vacate db.reservations,
    count-le (λ (r : ReservationRow). p r && q (vacate r)) (λ (r : ReservationRow). p r && q r)
        db.reservations (λ r k. ground (arith, h r)),
    count-le (λ (r : ReservationRow). p r && q r) (λ (r : ReservationRow). p r && q (vacate r))
        db.reservations (λ r k. ground (arith, h r)),
  )

  pub vacated-IsTallied :
      IsTallied db
      → find p db.reservations ≡ some old
      → count p db.reservations ≤ 1
      → is_active old ≡ true
      → IsTallied vacated
  vacated-IsTallied v found one active = record {
    counted = λ id. ground (
      arith,
      v.counted id,
      count_single p (is_active_in id) db.reservations one found,
      active-released p vacate (is_active_in id) db.reservations (λ r. ground arith),
      used-free old.room_id id db.rooms,
    );
    single = λ player. omega (
      arith,
      v.single player,
      active-released p vacate (is_active_of player) db.reservations (λ r. ground arith),
    );
    keyed = λ room player.
        omega (arith, v.keyed room player, vacated-count (is_reservation room player) (λ r. refl));
    rooms = λ id. room_keys id old.room_id (λ n. n - 1) db.rooms (v.rooms id);
  }
