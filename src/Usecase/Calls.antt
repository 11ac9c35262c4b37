-- ===== src/Usecase/Calls.antt =====
-- Backend/usecase/service.go: the methods of Service over any store that implements the interface
-- Store. A random token is an argument.
pub mod Postgres
use g_server.Common.{
  ℕ, Bool, true, false, not, ◌&&◌, ◌||◌, Option, none, some, String, ltb, ◌==◌, number_key,
  text_key,
}
use g_server.Domain.{
  Session, Ticket, RoomRecord, QuestCommit, ProgressSnapshot, ProgressQuery, ProgressCommit,
  EquipmentCommit, OperationResult, QuestSnapshot, SessionLease, content, combat_content, room,
  proto,
}
use g_server.Libs.{Libs}
use g_server.Store.{
  Result, Error, ok, err, unauthorized, rejected, version_mismatch, map_unavailable,
  invalid_capacity,
}
use g_server.Usecase.Stores.{Method, ProgressStore, Store}
use g_server.Usecase.Service.{valid_preset, config_hash_for, new_ticket, preset_of}
use g_server.Usecase.Quests.{quest_requirement, quest_reward}
use g_server.Usecase.Maps.{MapDefinition, map_definition_for}

abbrev pub go_on : {S A B : Type 0} → Result A × S → (A → Method S B) → Result B × S
go_on (err e, s) rest = (err e, s)
go_on (ok a, s) rest = rest a s

infixl 5 ◌>>=◌ ◌>>◌
abbrev pub ◌>>=◌ : {S A B : Type 0} → Method S A → (A → Method S B) → Method S B
◌>>=◌ first rest s = go_on (first s) rest

abbrev pub ◌>>◌ : {S A B : Type 0} → Method S A → Method S B → Method S B
◌>>◌ first rest s = go_on (first s) (λ _. rest)

abbrev pub give : {S A : Type 0} → A → Method S A
give a s = (ok a, s)

abbrev pub fail : {S A : Type 0} → Error → Method S A
fail e s = (err e, s)

abbrev pub fail_if : {S : Type 0} → Bool → Error → Method S (Unit {0})
fail_if true e s = (err e, s)
fail_if false e s = (ok tt, s)

abbrev pub or_fail : {S A : Type 0} → Error → Option A → Method S A
or_fail e none s = (err e, s)
or_fail e (some a) s = (ok a, s)

abbrev pub unfit : Libs → RoomRecord → Bool
unfit lib r =
    ltb r.capacity 1
    || ltb 8 r.capacity
    || not (r.protocol_version == proto)
    || (not (r.gameplay_content_hash == content) && not (r.gameplay_content_hash == combat_content))
    || not (
        r.resolved_config_hash
        == config_hash_for lib (preset_of lib r.gameplay_content_hash) r.gameplay_content_hash)
    || not (r.status == "ready")

abbrev pub unfit_ticket : Libs → Ticket → Bool
unfit_ticket lib x =
    x.room_id == ""
    || not (valid_preset x.preset_id x.content x.protocol)
    || not (x.config_hash == config_hash_for lib x.preset_id x.content)

module _ {S : Type 0} (lib : Libs) (store : Store S) where
  unfoldable pub login_call : String → String → String → Method S (String × String)
  login_call username password token = do
    x ← store.find_player username
    fail_if (not (lib.password_matches password x.password_hash)) unauthorized
    store.create_session x.id (lib.sha256_hex token)
    give (token, x.id)

  unfoldable pub auth_call : String → Method S Session
  auth_call token = store.find_session (lib.sha256_hex token)

  unfoldable pub ticket_call :
      String → String → String → String → String → ℕ → String → Method S Ticket
  ticket_call player session_hash p c map_id n token = do
    fail_if (not (valid_preset p c n)) version_mismatch
    m ← or_fail map_unavailable (map_definition_for map_id)
    store.issue_ticket (new_ticket lib token player room p c n m) (lib.sha256_hex token)
        session_hash
    give (new_ticket lib token player room p c n m)

  abbrev pub or_give_back : String → String → {A : Type 0} → Result A × S → Result A × S
  or_give_back room_id player (ok a, s) = (ok a, s)
  or_give_back room_id player (err e, s) = (err e, (store.release_reservation room_id player s).1)

  unfoldable pub allocate_call :
      String → String → String → String → String → ℕ → String → Method S (Ticket × RoomRecord)
  allocate_call player session_hash p c map_id n token = do
    fail_if (not (valid_preset p c n)) version_mismatch
    m ← or_fail map_unavailable (map_definition_for map_id)
    r ← store.allocate_room player c n (config_hash_for lib p c)
    λ s. or_give_back r.id player (
        (store.issue_ticket (new_ticket lib token player r.id p c n m) (lib.sha256_hex token)
              session_hash
            >> give (new_ticket lib token player r.id p c n m, r))
          s)

  unfoldable pub register_call : RoomRecord → Method S RoomRecord
  register_call r = do fail_if (unfit lib r) invalid_capacity; store.register_room r

  unfoldable pub redeem_call : Ticket → Method S Ticket
  redeem_call x = do fail_if (unfit_ticket lib x) unauthorized; store.redeem_ticket x

  unfoldable pub quest_call : QuestCommit → Method S ProgressSnapshot
  quest_call c = do
    required ← or_fail rejected (quest_requirement c.quest_id c.objective_id)
    store.progress.commit_quest (record c { required = required; reward = quest_reward c.quest_id })

module _ {S : Type 0} (store : Store S) where
  unfoldable pub renew_call : SessionLease → Method S SessionLease
  renew_call = store.progress.renew_session

  unfoldable pub release_call : SessionLease → Method S (Unit {0})
  release_call = store.progress.release_session

  unfoldable pub query_call : ProgressQuery → Method S OperationResult
  query_call = store.progress.query_progress

  unfoldable pub snapshot_call : String → Method S ProgressSnapshot
  snapshot_call = store.progress.get_progress_snapshot

  unfoldable pub equipment_call : EquipmentCommit → Method S ProgressSnapshot
  equipment_call = store.progress.commit_equipment

  unfoldable pub quests_call : String → Method S QuestSnapshot
  quests_call = store.progress.get_quest_snapshot

  unfoldable pub acquire_call : String → String → Method S SessionLease
  acquire_call = store.progress.acquire_session

  unfoldable pub commit_call : ProgressCommit → Method S OperationResult
  commit_call = store.progress.commit_progress
