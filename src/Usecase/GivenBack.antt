-- ===== src/Usecase/GivenBack.antt =====
-- Backend/usecase/service.go: AllocateForMap, what becomes of a place whose ticket cannot be issued.
use g_server.Common.{◌≡◌, text_key, number_key}
use g_server.Libs.{Libs}
use g_server.Domain.{Ticket}
use g_server.Store.{Db}
use g_server.Store.Session.{}

-- The tables of the rooms are as they were.
record SameRooms (d d' : Db) : Type 0 where
  reservations : d'.reservations ≡ d.reservations
  rooms : d'.rooms ≡ d.rooms
