-- ===== src/Usecase/Calls/Postgres.antt =====
-- The service over the PostgreSQL store.
use g_server.Common.{ℕ, suc, Bool, String, ◌≡◌, refl, arith}
use g_server.Domain.{Ticket, RoomRecord, QuestCommit}
use g_server.Libs.{Libs}
use g_server.Store.{Result, Db, Link}
use g_server.Usecase.Stores.{Traffic, postgres}
use g_server.Usecase.Service.{
  login, auth, ticket_for_map, allocate_for_map, register, redeem, service_commit_quest,
}
use g_server.Usecase.Calls.{
  login_call, auth_call, ticket_call, allocate_call, register_call, redeem_call, quest_call,
}

-- The outcome and the database.
abbrev pub outcome : {A : Type 0} → Result A × Traffic → Result A × Db
outcome (r, (n, db)) = (r, db)

module _ (lib : Libs) (link : ℕ → Link) (locked : String → Bool) (now n : ℕ) (db : Db) where
  login_call-postgres :
      (username password token : String)
      → outcome (login_call lib (postgres lib link locked now) username password token (n, db))
        ≡ login lib (link n) (link (suc n)) username password token now db
  unfolding login_call login
  login_call-postgres username password token = ground arith

  auth_call-postgres :
      (token : String)
      → outcome (auth_call lib (postgres lib link locked now) token (n, db))
        ≡ auth lib (link n) token now db
  unfolding auth_call auth
  auth_call-postgres token = refl

  ticket_call-postgres :
      (player hash p c map_id : String) (proto : ℕ) (token : String)
      → outcome (
          ticket_call lib (postgres lib link locked now) player hash p c map_id proto token (n, db))
        ≡ ticket_for_map lib (link n) player hash p c map_id proto token now db
  unfolding ticket_call ticket_for_map
  ticket_call-postgres player hash p c map_id proto token = ground arith

  allocate_call-postgres :
      (player hash p c map_id : String) (proto : ℕ) (token : String)
      → outcome (
          allocate_call lib
            (postgres lib link locked now)
            player
            hash
            p
            c
            map_id
            proto
            token
            (n, db))
        ≡ allocate_for_map lib
            (link n)
            (link (suc n))
            (link (suc (suc n)))
            locked
            player
            hash
            p
            c
            map_id
            proto
            token
            now
            db
  unfolding allocate_call allocate_for_map
  allocate_call-postgres player hash p c map_id proto token = ground arith

  register_call-postgres :
      (r : RoomRecord)
      → outcome (register_call lib (postgres lib link locked now) r (n, db))
        ≡ register lib (link n) r now db
  unfolding register_call register
  register_call-postgres r = ground arith

  redeem_call-postgres :
      (x : Ticket)
      → outcome (redeem_call lib (postgres lib link locked now) x (n, db))
        ≡ redeem lib (link n) x now db
  unfolding redeem_call redeem
  redeem_call-postgres x = ground arith

  quest_call-postgres :
      (c : QuestCommit)
      → outcome (quest_call lib (postgres lib link locked now) c (n, db))
        ≡ service_commit_quest lib (link n) (link (suc n)) c now db
  unfolding quest_call service_commit_quest
  quest_call-postgres c = ground arith
