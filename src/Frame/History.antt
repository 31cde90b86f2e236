-- ===== src/Frame/History.antt =====
-- Histories: calls of the services in any order, and the passing of time.
use ekyc.Prelude.{ℕ, ◌+◌, String, ◌≡◌, ◌≤◌, Option, none, length, [], arith}
use ekyc.Json.{Fields}
use ekyc.Enums.{SessionStatus, CheckStatus, Step, OtpChannel}
use ekyc.Models.{KycSession, Tenant, StepInternal}
use ekyc.Env.{Env}
use ekyc.Exec.{Db, ok}
use ekyc.Audit.{NewEvent, record_event, events_of, verify_chain, valid}
use ekyc.Audit.Chain.{head_hash}
use ekyc.Audit.Verify.{verify_chain-AllChained}
use ekyc.Kyc.Session.{grant_consent, decline_consent, create_session}
use ekyc.Kyc.Decide.{set_check, evaluate, override_decision, expire}
use ekyc.Otp.{send_otp, verify_otp}
use ekyc.Webhooks.{queue_session_event}
use ekyc.Webhooks.Unique.{live_count}
use ekyc.Frame.{TableFrame}
use ekyc.Frame.Instances.{chained_tables, unique_tables}
use ekyc.Frame.Operations.{
  otp_frame, create_session-Keeps, grant_consent-Keeps, decline_consent-Keeps, set_check-Keeps,
  evaluate-Keeps, override_decision-Keeps, expire-Keeps,
}
use ekyc.Frame.OtpOps.{send_otp-Keeps, verify_otp-Keeps}

-- A call, with its arguments: the operations of the KYC service and the OTP engine, an event or a
-- webhook that another part asks for. The purge of app/services/retention.py is none of them.
pub data Request : Type 0 where
  create : Tenant → String → Option String → Fields → Option String → Option String → Request
  grant : String → String → Option String → Option String → Request
  decline : String → String → Option String → Request
  report : String → Step → CheckStatus → Option StepInternal → Request
  finalize : String → Request
  correct : String → SessionStatus → String → String → Request
  expire_session : String → Request
  send_code : String → OtpChannel → String → Request
  verify_code : String → String → Request
  log : NewEvent → Request
  notify : KycSession → Request

module _ (env : Env) where
  -- The database after the call, whether it returned or raised.
  abbrev pub perform : Request → Db → Db
  perform (create tenant flow reference metadata jurisdiction ip) db =
      (create_session env tenant flow reference metadata jurisdiction ip db).1
  perform (grant sid version ip agent) db = (grant_consent env sid version ip agent db).1
  perform (decline sid version ip) db = (decline_consent env sid version ip db).1
  perform (report sid step status details) db = (set_check sid step status details db).1
  perform (finalize sid) db = (evaluate env sid db).1
  perform (correct sid target reason actor) db =
      (override_decision env sid target reason actor db).1
  perform (expire_session sid) db = (expire env sid db).1
  perform (send_code sid channel destination) db = (send_otp env sid channel destination db).1
  perform (verify_code sid code) db = (verify_otp env sid code db).1
  perform (log new) db = (record_event env new db).1
  perform (notify s) db = (queue_session_event env s db).1

  -- The databases that calls and the passing of time lead to; a call that is rolled back is none.
  pub data Reachable (start : Db) : Db → Type 0 where
    begin : Reachable start start
    call : {db : Db} → Reachable start db → (r : Request) → Reachable start (perform r db)
    wait :
        {db : Db} → Reachable start db → (t : ℕ) → Reachable start (record db { now = db.now + t })

  module _ {P : Db → Type 0} (tables : TableFrame env P) where
    open tables use {frame}
    open frame use {keeps_event, keeps_webhook}

    pub perform-Keeps : (r : Request) (db : Db) → P db → P (perform r db)
    perform-Keeps (create tenant flow reference metadata jurisdiction ip) =
        (create_session-Keeps env frame tenant flow reference metadata jurisdiction ip).at
    perform-Keeps (grant sid version ip agent) =
        (grant_consent-Keeps env frame sid version ip agent).at
    perform-Keeps (decline sid version ip) = (decline_consent-Keeps env frame sid version ip).at
    perform-Keeps (report sid step status details) =
        (set_check-Keeps env frame sid step status details).at
    perform-Keeps (finalize sid) = (evaluate-Keeps env frame sid).at
    perform-Keeps (correct sid target reason actor) =
        (override_decision-Keeps env frame sid target reason actor).at
    perform-Keeps (expire_session sid) = (expire-Keeps env frame sid).at
    perform-Keeps (send_code sid channel destination) =
        (send_otp-Keeps env (otp_frame env tables) sid channel destination).at
    perform-Keeps (verify_code sid code) = (verify_otp-Keeps env (otp_frame env tables) sid code).at
    perform-Keeps (log new) = (keeps_event new).at
    perform-Keeps (notify s) = (keeps_webhook s).at

    pub Reachable-Keeps :
        ((db : Db) (t : ℕ) → P db → P (record db { now = db.now + t }))
        → {start db : Db} → Reachable start db
        → P start
        → P db
    Reachable-Keeps later begin h = h
    Reachable-Keeps later (call before r) h = perform-Keeps r _ (Reachable-Keeps later before h)
    Reachable-Keeps later (wait before t) h = later _ t (Reachable-Keeps later before h)

  -- From a database with no audit event, after any calls of `Request`, `verify_chain` answers "valid" for every
  -- session, with the number of its events and the hash of the last one.
  pub verify_chain-Reachable :
      {start db : Db}
      → start.events ≡ []
      → Reachable start db
      → (sid : String)
      → verify_chain env sid db ≡ (
        ok (
            valid
              (length (events_of sid db.events))
              (head_hash env none (events_of sid db.events))),
        db,
      )
  verify_chain-Reachable empty reached sid =
      verify_chain-AllChained env sid _
        (Reachable-Keeps (chained_tables env) (λ db t h. h) reached (λ id. rw empty tt))

  -- From a database with no webhook delivery, after any calls of `Request`, no session has two waiting or
  -- delivered webhooks of one event.
  pub live_count-Reachable :
      {start db : Db}
      → start.deliveries ≡ []
      → Reachable start db
      → (sid event : String) → live_count sid event db.deliveries ≤ 1
  live_count-Reachable empty reached sid event =
      Reachable-Keeps (unique_tables env) (λ db t h. h) reached (λ id e. rw empty (omega arith)) sid
        event
