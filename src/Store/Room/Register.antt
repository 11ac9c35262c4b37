-- ===== src/Store/Room/Register.antt =====
-- Registering a room and its heartbeat keep the tally.
use g_server.Common.{
  count-update, count-append, count-le, count-none, ◌||◌, not, ltb, refl, ap, ◌∷◌, ◌&&◌, ◌++◌, ◌==◌,
  text_key, number_key, leb, arith, find, find-update, text_iff, find-append_old, find-append_other,
  find-append_new, String, ℕ, ◌≡◌, Option, ℤ, update, none, some, Option-cases, not, inl, inr, [],
  Bool-cases, ltb,
}
use g_server.Store.Keeps.{settle_keeps, raise_if_keeps, or_raise_keeps}
use g_server.Store.{
  RoomRecord, Db, Link, no_rows, invalid_heartbeat, constraint, max_int, out_of_range,
}
use g_server.Store.Room.{
  upsert_room, register_room, heartbeat_room, room_of, is_room, reregistered, capacity_fits,
  exceeds, is_fresh, write_room,
}
use g_server.Store.Room.Tally.{IsTallied}

-- What an update of the room keeps when it leaves the id and the players in use.
refresh-IsTallied :
    (id : String) (f : RoomRecord → RoomRecord) (db : Db)
    → ((r : RoomRecord) → (f r).id ≡ r.id × (f r).used_players ≡ r.used_players)
    → IsTallied db
    → IsTallied (record db { rooms = update (is_room id) f db.rooms })
refresh-IsTallied id f db h v = record {
  counted = λ k. elim (Option-cases (find (is_room k) db.rooms)) [
    | inl absent ↦ ground (
      arith,
      v.counted k,
      find-update (is_room k) (is_room id) f db.rooms (λ r. ap (λ s. s == k) (h r).0),
    )
    | inr (r, found) ↦ ground (
      arith,
      h r,
      v.counted k,
      find-update (is_room k) (is_room id) f db.rooms (λ r. ap (λ s. s == k) (h r).0),
    )
  ];
  single = v.single;
  keyed = v.keyed;
  rooms = λ k. ground (
    arith,
    v.rooms k,
    count-update (is_room k) (is_room id) f db.rooms,
    count-le (λ (r : RoomRecord). is_room id r && is_room k (f r))
        (λ (r : RoomRecord). is_room id r && is_room k r) db.rooms
        (λ r e. ground (arith, h r, text_iff r.id k, text_iff (f r).id k)),
  );
}

insert-IsTallied :
    (x : RoomRecord) (now : ℕ) (db : Db)
    → room_of x.id db ≡ none
    → IsTallied db
    → IsTallied
        (record db { rooms = db.rooms ++ record x { used_players = 0; last_heartbeat = now } ∷ [] })
insert-IsTallied x now db absent v =
    let fresh : RoomRecord = record x { used_players = 0; last_heartbeat = now } in
    record {
      counted = λ k. elim (Option-cases (find (is_room k) db.rooms)) [
        | inl e ↦ elim (Bool-cases (x.id == k)) [
          | inl same ↦ ground (arith, v.counted k, find-append_new (is_room k) db.rooms fresh e)
          | inr other ↦ ground (arith, v.counted k, find-append_other (is_room k) db.rooms fresh)
        ]
        | inr (r, found) ↦
            ground (arith, v.counted k, find-append_old (is_room k) db.rooms fresh found)
      ];
      single = v.single;
      keyed = v.keyed;
      rooms = λ k. ground (
        arith,
        v.rooms k,
        text_iff x.id k,
        count-none (is_room k) db.rooms,
        count-append (is_room k) db.rooms fresh,
      );
    }

upsert_room-IsTallied :
    (x : RoomRecord) (now : ℕ) (o : Option RoomRecord) (db : Db)
    → room_of x.id db ≡ o
    → IsTallied db
    → IsTallied (upsert_room x now o db).1
unfolding upsert_room
upsert_room-IsTallied x now none db found v = insert-IsTallied x now db found v
upsert_room-IsTallied x now (some old) db found v =
    raise_if_keeps IsTallied (not (leb old.generation x.generation)) no_rows db _ v
      (refresh-IsTallied x.id (reregistered x now) db (λ r. (refl, refl)) v)

pub register_room-IsTallied :
    (link : Link) (x : RoomRecord) (now : ℕ) (db : Db)
    → IsTallied db
    → IsTallied (register_room link x now db).1
unfolding register_room
register_room-IsTallied link x now db v = settle_keeps IsTallied link db _ v (λ _ _.
    raise_if_keeps IsTallied (ltb max_int x.generation) out_of_range db _ v (
      raise_if_keeps IsTallied (not (capacity_fits x)) constraint db _ v
        (upsert_room-IsTallied x now (room_of x.id db) db refl v)))

pub heartbeat_room-IsTallied :
    (link : Link) (id : String) (generation capacity : ℕ) (used : ℤ) (status : String) (now : ℕ)
    (db : Db)
    → IsTallied db
    → IsTallied (heartbeat_room link id generation capacity used status now db).1
unfolding heartbeat_room
heartbeat_room-IsTallied link id generation capacity used status now db v =
    raise_if_keeps {B = Unit {0}} IsTallied
      (ltb capacity 1
        || ltb 8 capacity
        || exceeds capacity used
        || (not (status == "ready") && not (status == "draining")))
      invalid_heartbeat db _ v
      (settle_keeps {A = Unit {0}} IsTallied link db _ v (λ _ _.
        raise_if_keeps {B = Unit {0}} IsTallied (ltb max_int generation) out_of_range db _ v (
          or_raise_keeps {B = Unit {0}} IsTallied (room_of id db) no_rows db _ v (λ r.
            raise_if_keeps {B = Unit {0}} IsTallied
              (not (r.generation == generation && r.capacity == capacity && is_fresh now r)) no_rows
              db (λ _. write_room id (λ r. record r { status = status; last_heartbeat = now })) v
              (refresh-IsTallied id (λ r. record r { status = status; last_heartbeat = now }) db
                (λ r. (refl, refl)) v)))))
