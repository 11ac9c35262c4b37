-- ===== src/Store/Room.antt =====
-- Backend/infra/postgres.go: RegisterRoom, HeartbeatRoom, AllocateRoom and ReleaseReservation.
pub mod Tally
pub mod Leave
pub mod Entry
pub mod Register
pub mod Allocate
pub mod History
use g_server.Common.{
  ℕ, ℤ, pos, negsuc, ◌+◌, ◌-◌, Bool, true, not, ◌&&◌, ◌||◌, Option, none, some, List, [], ◌∷◌, ◌++◌,
  String, ltb, leb, find, update, ◌==◌, number_key, text_key, if◌then◌else◌,
}
use g_server.Domain.{RoomRecord}
use g_server.Libs.{Libs}
use g_server.Store.{
  Db, ReservationRow, Query, Link, transact, pure, raise, raise_if, select, or_raise, write, ◌>>=◌,
  ◌>>◌, no_rows, constraint, invalid_heartbeat, player_exists, seconds, max_int, out_of_range,
}
use g_server.Store.Session.{is_null}

abbrev pub is_room : String → RoomRecord → Bool
is_room id r = r.id == id

abbrev pub room_of : String → Db → Option RoomRecord
room_of id db = find (is_room id) db.rooms

abbrev pub write_room : String → (RoomRecord → RoomRecord) → Query (Unit {0})
write_room id f = write (λ d. record d { rooms = update (is_room id) f d.rooms })

-- The columns that a second registration overwrites: all but the players in use.
abbrev pub reregistered : RoomRecord → ℕ → RoomRecord → RoomRecord
reregistered x now r = record x { id = r.id; used_players = r.used_players; last_heartbeat = now }

-- A table row `check(capacity between 1 and 8)`.
abbrev pub capacity_fits : RoomRecord → Bool
capacity_fits x = leb 1 x.capacity && leb x.capacity 8

unfoldable pub upsert_room : RoomRecord → ℕ → Option RoomRecord → Query RoomRecord
upsert_room x now none = do
  let fresh = record x { used_players = 0; last_heartbeat = now }
  write (λ d. record d { rooms = d.rooms ++ fresh ∷ [] })
  pure fresh
upsert_room x now (some old) = do
  raise_if (not (leb old.generation x.generation)) no_rows
  write_room x.id (reregistered x now)
  pure (reregistered x now old)

unfoldable pub register_room : Link → RoomRecord → ℕ → Query RoomRecord
unfolding upsert_room
register_room link x now = transact link do
  raise_if (ltb max_int x.generation) out_of_range
  raise_if (not (capacity_fits x)) constraint
  old ← select (room_of x.id)
  upsert_room x now old

-- A heartbeat within the last 15 seconds.
abbrev pub is_fresh : ℕ → RoomRecord → Bool
is_fresh now r = ltb now (r.last_heartbeat + seconds 15)

-- `used < 0 || used > capacity`.
abbrev pub exceeds : ℕ → ℤ → Bool
exceeds capacity (pos used) = ltb capacity used
exceeds capacity (negsuc _) = true

-- The number of players is checked and not stored. A generation that the column cannot hold is no
-- parameter of the statement.
unfoldable pub heartbeat_room : Link → String → ℕ → ℕ → ℤ → String → ℕ → Query (Unit {0})
heartbeat_room link id generation capacity used status now = do
  raise_if
      (ltb capacity 1
        || ltb 8 capacity
        || exceeds capacity used
        || (not (status == "ready") && not (status == "draining")))
      invalid_heartbeat
  transact link do
    raise_if (ltb max_int generation) out_of_range
    r ← or_raise no_rows (← select (room_of id))
    raise_if (not (r.generation == generation && r.capacity == capacity && is_fresh now r)) no_rows
    write_room id (λ r. record r { status = status; last_heartbeat = now })

abbrev pub is_free : String → ℕ → String → ℕ → RoomRecord → Bool
is_free content proto config now r =
    r.status == "ready"
    && is_fresh now r
    && ltb r.used_players r.capacity
    && r.protocol_version == proto
    && r.gameplay_content_hash == content
    && r.resolved_config_hash == config

abbrev pub is_reservation : String → String → ReservationRow → Bool
is_reservation room player r = r.room_id == room && r.player_id == player

abbrev pub is_active : ReservationRow → Bool
is_active r = is_null r.released_at

abbrev pub is_active_of : String → ReservationRow → Bool
is_active_of player r = r.player_id == player && is_active r

abbrev pub reservation_of : String → String → Db → Option ReservationRow
reservation_of room player db = find (is_reservation room player) db.reservations

-- `greatest(used_players - 1, 0)`.
unfoldable pub free_place : String → Query (Unit {0})
free_place id = write_room id (λ r. record r { used_players = r.used_players - 1 })

-- The capacity keeps the sum within the column.
unfoldable pub take_place : String → Query (Unit {0})
take_place id = write_room id (λ r. record r { used_players = r.used_players + 1 })

abbrev pub released : ℕ → ReservationRow → ReservationRow
released now r = record r { released_at = some now; status = 0 }

-- The player's active reservation, if there is one, is released: a unique index allows one at most.
unfoldable pub leave_room : String → ℕ → Option ReservationRow → Query (Unit {0})
unfolding free_place
leave_room player now none = pure tt
leave_room player now (some old) = do
  write
      (λ d. record d { reservations = update (is_active_of player) (released now) d.reservations })
  free_place old.room_id

abbrev pub reserved : ReservationRow → ReservationRow
reserved r = record r { released_at = none; status = 1 }

-- `insert into room_reservation … on conflict(room_id,player_id) do update`.
unfoldable pub reserve : String → String → Option ReservationRow → Query (Unit {0})
reserve room player (some old) db =
    write
      (λ d. record d { reservations = update (is_reservation room player) reserved d.reservations })
      db
reserve room player none db =
    if player_exists player db
    then write
        (λ d. record d {
          reservations =
              d.reservations
              ++ record { room_id = room; player_id = player; released_at = none; status = 1 } ∷ [];
        })
        db
    else raise constraint db

unfoldable pub enter_room : String → String → Query (Unit {0})
unfolding reserve take_place
enter_room room player = do
  row ← select (reservation_of room player)
  reserve room player row
  take_place room

abbrev pub is_active_reservation : String → String → ReservationRow → Bool
is_active_reservation room player r = is_reservation room player r && is_active r

unfoldable pub release_row : String → String → ℕ → Option ReservationRow → Query (Unit {0})
unfolding free_place
release_row room player now none = pure tt
release_row room player now (some old) = do
  write (λ d. record d {
    reservations =
        update (is_active_reservation room player) (λ r. record r { released_at = some now })
          d.reservations;
  })
  free_place room

unfoldable pub release_reservation : Link → String → String → ℕ → Query (Unit {0})
unfolding release_row
release_reservation link room player now = transact link do
  old ← select (λ db. find (is_active_reservation room player) db.reservations)
  release_row room player now old

-- The answer is the row as it was read, before this player is counted.
unfoldable pub move_to : String → ℕ → Option RoomRecord → Query RoomRecord
unfolding leave_room enter_room
move_to player now none = raise no_rows
move_to player now (some r) = do
  old ← select (λ db. find (is_active_of player) db.reservations)
  leave_room player now old
  enter_room r.id player
  pure r

module _ (lib : Libs) where
  -- `order by room_id … limit 1`.
  unfoldable pub first_room : (RoomRecord → Bool) → List RoomRecord → Option RoomRecord
  first_room p [] = none
  first_room p (r ∷ rs) =
      let rest = first_room p rs in
      if p r
      then elim rest [
        | none ↦ some r
        | some s ↦ if lib.text_before s.id r.id then some s else some r
      ]
      else rest

  -- `locked` says which rows other transactions hold: `for update skip locked` passes them over.
  unfoldable pub allocate_room :
      Link → (String → Bool) → String → String → ℕ → String → ℕ → Query RoomRecord
  unfolding move_to
  allocate_room link locked player content proto config now = transact link do
    free ←
        select
          (λ db. first_room (λ r. is_free content proto config now r && not (locked r.id)) db.rooms)
    move_to player now free
