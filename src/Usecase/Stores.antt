-- ===== src/Usecase/Stores.antt =====
-- Backend/usecase/service.go: the interfaces ProgressStore and Store, and the PostgreSQL store as one
-- of their implementations.
use g_server.Common.{ℕ, suc, ℤ, Bool, String}
use g_server.Domain.{
  Player, Session, Ticket, RoomRecord, SessionLease, ProgressCommit, OperationResult, ProgressQuery,
  ProgressSnapshot, EquipmentCommit, QuestSnapshot, QuestCommit,
}
use g_server.Libs.{Libs}
use g_server.Store.{Result, Db, Link, Query}
use g_server.Store.Session.{find_player, create_session, find_session, revoke_session, ping}
use g_server.Store.Ticket.{issue_ticket, redeem_ticket}
use g_server.Store.Room.{register_room, heartbeat_room, allocate_room, release_reservation}
use g_server.Store.Lease.{acquire_session, renew_session, release_session}
use g_server.Store.Progress.{commit_progress}
use g_server.Store.Operation.{query_progress, get_progress_snapshot, get_quest_snapshot}
use g_server.Store.Equipment.{commit_equipment}
use g_server.Store.Quest.{commit_quest}

-- A method of a store whose state is an `S`.
abbrev pub Method : Type 0 → Type 0 → Type 0
Method S A = S → Result A × S

pub record ProgressStore (S : Type 0) : Type 0 where
  pub acquire_session : (player room : String) → Method S SessionLease
  pub renew_session : SessionLease → Method S SessionLease
  pub release_session : SessionLease → Method S (Unit {0})
  pub commit_progress : ProgressCommit → Method S OperationResult
  pub query_progress : ProgressQuery → Method S OperationResult
  pub get_progress_snapshot : (player : String) → Method S ProgressSnapshot
  pub commit_equipment : EquipmentCommit → Method S ProgressSnapshot
  pub get_quest_snapshot : (player : String) → Method S QuestSnapshot
  pub commit_quest : QuestCommit → Method S ProgressSnapshot

pub record Store (S : Type 0) : Type 0 where
  pub find_player : (username : String) → Method S Player
  pub create_session : (player hash : String) → Method S (Unit {0})
  pub find_session : (hash : String) → Method S Session
  pub revoke_session : (hash : String) → Method S (Unit {0})
  pub issue_ticket : Ticket → (ticket_hash session_hash : String) → Method S (Unit {0})
  pub redeem_ticket : Ticket → Method S Ticket
  pub register_room : RoomRecord → Method S RoomRecord
  pub heartbeat_room :
      (id : String) (generation capacity : ℕ) (used : ℤ) (status : String) → Method S (Unit {0})
  pub allocate_room : (player content : String) (proto : ℕ) (config : String) → Method S RoomRecord
  pub release_reservation : (room player : String) → Method S (Unit {0})
  pub ping : Method S (Unit {0})
  pub progress : ProgressStore S

-- The database, and how many transactions have been sent to it.
abbrev pub Traffic : Type 0
Traffic = ℕ × Db

-- A method that sends one transaction, and one that sends two.
abbrev pub one : {A : Type 0} → (ℕ → Link) → (Link → Query A) → Method Traffic A
one link q (n, db) = let (r, db') = q (link n) db in (r, (suc n, db'))

abbrev pub two : {A : Type 0} → (ℕ → Link) → (Link → Link → Query A) → Method Traffic A
two link q (n, db) = let (r, db') = q (link n) (link (suc n)) db in (r, (suc (suc n), db'))

-- `link n` is how the connection serves the transaction after `n` others.
module _ (lib : Libs) (link : ℕ → Link) (locked : String → Bool) (now : ℕ) where
  abbrev pub postgres_progress : ProgressStore Traffic
  postgres_progress = record {
    acquire_session = λ player room. one link (λ l. acquire_session l player room now);
    renew_session = λ x. one link (λ l. renew_session l x now);
    release_session = λ x. one link (λ l. release_session l x);
    commit_progress = λ c. one link (λ l. commit_progress lib l c now);
    query_progress = λ q. one link (λ l. query_progress lib l q);
    get_progress_snapshot = λ player. one link (λ l. get_progress_snapshot l player);
    commit_equipment = λ c. one link (λ l. commit_equipment lib l c now);
    get_quest_snapshot = λ player. one link (λ l. get_quest_snapshot l player);
    commit_quest = λ c. two link (λ l m. commit_quest lib l m c now);
  }

  abbrev pub postgres : Store Traffic
  postgres = record {
    find_player = λ username. one link (λ l. find_player l username);
    create_session = λ player hash. one link (λ l. create_session l player hash now);
    find_session = λ hash. one link (λ l. find_session l hash now);
    revoke_session = λ hash. one link (λ l. revoke_session l hash now);
    issue_ticket =
        λ x ticket_hash session_hash. one link (λ l. issue_ticket l x ticket_hash session_hash now);
    redeem_ticket = λ x. one link (λ l. redeem_ticket lib l x now);
    register_room = λ r. one link (λ l. register_room l r now);
    heartbeat_room = λ id generation capacity used status.
        one link (λ l. heartbeat_room l id generation capacity used status now);
    allocate_room = λ player content proto config.
        one link (λ l. allocate_room lib l locked player content proto config now);
    release_reservation = λ room player. one link (λ l. release_reservation l room player now);
    ping = one link ping;
    progress = postgres_progress;
  }
