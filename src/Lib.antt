-- ===== src/Lib.antt =====
-- Verification of the Go backend of G_Server (Backend/): the control plane that authenticates
-- players, issues tickets, assigns rooms, and keeps each player's progress in PostgreSQL.
--
-- The parts, and how they interact. A client logs in, asks for a ticket or a room
-- (Backend/usecase/service.go over Backend/infra/postgres.go), and hands the ticket to a game server,
-- which redeems it, takes the player's session lease, and commits pickups, equipment and quest
-- progress under the lease's fencing token.
--
--   Domain      Backend/domain/domain.go: the constants, records and requests
--   Libs        what is not implemented here: SHA-256, encoding/json, argon2id, the reading and the
--               spelling of jsonb, and the database's text order, as functions that the models take
--   Store       Backend/infra/postgres.go over the tables of Backend/migrations: the database is a
--               record of tables, a method a function of it. Store.Version has the data versions
--               (requireProgressVersion, lockProgressVersion, MigrateProgressSchema), Store.Session
--               FindPlayer, CreateSession, FindSession and RevokeSession, Store.Ticket IssueTicket and
--               RedeemTicket, Store.Lease AcquireSession, RenewSession and ReleaseSession,
--               Store.Operation QueryProgress, GetProgressSnapshot, GetQuestSnapshot and the
--               statements that the commits share, Store.Progress CommitProgress, Store.Equipment
--               CommitEquipment, Store.Quest CommitQuest, Store.Room RegisterRoom, HeartbeatRoom,
--               AllocateRoom and ReleaseReservation, Store.Migration Migrate and Rollback (the
--               tables that their scripts change are a type of their own, and running a script a
--               parameter). Their child modules hold the theorems, and Store.Fencing those that join
--               leases and commits; Store.Session.Ended has what may happen to the sessions after a
--               logout.
--   Usecase     Backend/usecase: the quest catalog, the map catalog and the service, with the way from
--               a ticket to its redemption (Usecase.Admission), the room of a placement
--               (Usecase.Placement), the place of one that fails (Usecase.GivenBack) and the manifest of the maps (Usecase.Manifest). Usecase.Stores has
--               the interfaces Store and ProgressStore with the PostgreSQL store as an implementation,
--               and Usecase.Calls the methods of Service over any store, which its child compares
--               with those over the tables
--   Transport   Backend/transport/http.go. Transport.Serve has ServeHTTP, from the guards of the
--               connection, the rate and the size to the choice of a route, and Transport.Routes the
--               routes of the players, the rooms and the progress; Transport.Message has the bodies
--               and responses, dbError, and what goes on around one request (`Context`),
--               Transport.Credential serviceAuthorized, text and the bearer token, Transport.Peer
--               what may come without TLS, Transport.Number integer and the header's number, and
--               Transport.Limiter `Handler.slot`, with the panic on an empty window as a missing
--               result; Transport.Limiter.Order has its table without an order, as a quotient. The
--               other child modules hold the theorems: on one request (Access, Internal, Guards,
--               Sessions, Status, Errors) and on several (Keys, Flow, Logout, Admission, Retries).
--   Process     Backend/main.go: the configuration (Process.Config), the account that seed writes
--               (Process.Seed) and run (Process.Commands) with what infra.Open checks;
--               Process.Serving, Process.Account, Process.Login and Process.Migrated have the
--               theorems, on the server that run starts, the account that is there after seed, a
--               login with it, and the command migrate. Process.Life is the server's life as a step
--               relation: requests, signals, Shutdown and the end of main
--   Runner      Backend/cmd/testdb: a command that runs against a database in a container of its own.
--               What it starts is a list of actions, and the outcomes of these are its argument
--   Integration Backend/cmd/g1integration: the integration test of a backend, a game server and
--               clients, as a script of calls in a monad that keeps what has worked and what is
--               deferred. Integration.Setup has run up to the check of the registered room,
--               Integration.Modes and Integration.Race the tests that the environment chooses,
--               Integration.Main run itself, and Integration.Keeps and Integration.Release what it
--               releases
--   Tests       concrete data, runs of the code on it, and the theorems applied to it
--
-- How the source is read. A SQL statement is the change of the tables that PostgreSQL documents for
-- it; a table is the list of its rows, and a row that a key selects is found first in it. A
-- transaction runs as one step (the code locks the rows it decides on), with `now()` as an
-- argument. `transact` runs the body and undoes it on an error; its argument of type `Link` says
-- whether the connection serves Begin and Commit, with the case that a commit takes effect and its
-- acknowledgement is lost. Statements sent to the pool are transactions of their own. A request to
-- the server is a record; its remote address is there as a text and as it is parsed, and the bytes
-- of its body are read by a `Decoder`, which stands for encoding/json. The calls of the database
-- that one request or command makes take the links of their connection in turn. The map of limiter
-- windows is an association list, and a Go map that `range` visits a list of its keys in any order.
-- A violated key or reference and an integer that a column cannot hold are errors as in PostgreSQL.
--
-- Bounds. Go and SQL integers are natural numbers: a negative number is refused by the guards `< 1`
-- that refuse zero, and where zero and a negative number differ (HeartbeatRoom's players,
-- Rollback's steps, a request's declared length) the number is an integer. A JSON number is a
-- float64 until `integer` has let it through, and the int64 that is made of it then is negative for
-- 2 ^ 63 alone; such a number, as a revision, is taken to the tables as one that no column holds.
-- Revisions, fencing tokens and item counts that pass
-- their column's largest value are errors. In CommitQuest progress and amount are at most what is
-- required, so the Go addition is far from its bounds; the amounts that a reward adds in Go are
-- added without a bound. There is no fuel: every function recurs on a list, a text, or the rounds of a
-- counted loop (the 60 polls of the runner).
--
-- Not modelled. Ids are taken to be uuids in the one spelling that the database returns, so the
-- error for a text that is no uuid does not occur. JSON columns hold what the code writes, so
-- decoding them does not fail. Texts are valid UTF-8. What ServeHTTP prints to the log, the time
-- limits of its calls and the bytes of its responses are left out, as are the time limits of the
-- server that run starts (Backend/main.go), the SQL of the migrations, the waiting times
-- and the words of some errors of the programs in Backend/cmd, and the Godot game server with its
-- clients.
pub mod Common
pub mod Domain
pub mod Libs
pub mod Store
pub mod Usecase
pub mod Transport
pub mod Process
pub mod Runner
pub mod Integration
pub mod Tests
