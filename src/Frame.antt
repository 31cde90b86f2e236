-- ===== src/Frame.antt =====
-- The interface between the operations and an invariant of the database: what the elementary
-- writes have to keep.
pub mod Operations
pub mod Logs
pub mod PurgeOps
pub mod DocumentOps
pub mod Instances
pub mod OtpOps
pub mod History
pub mod TaskOps
pub mod ApiOps
pub mod Tasks
pub mod Appended
pub mod Anchors
pub mod Terminal
use ekyc.Prelude.{ℕ, String, List, Option, none, some}
use ekyc.Models.{KycSession, OtpChallenge, StepInternal, Document, Artifact, BiometricCheck}
use ekyc.Env.{Env}
use ekyc.Exec.{Db, Limiter, Dispatch, Exn, draw, or_raise, utcnow}
use ekyc.Exec.Keeps.{Keeps, keeps_rules}
use ekyc.Audit.{NewEvent, record_event}
use ekyc.Store.{
  save_session, touch_session, insert_session, load_session, lock_session, modify_challenges,
  modify_documents, modify_artifacts, modify_biometrics, modify_limiter, push_task,
}
use ekyc.Webhooks.{queue_session_event}
use ekyc.Enums.{Step, CheckStatus}
use ekyc.Kyc.Decide.{set_check}

pub record Frame (env : Env) (P : Db → Type 0) : Type 0 where
  pub keeps_event : (n : NewEvent) → Keeps P (record_event env n)
  pub keeps_webhook : (s : KycSession) → Keeps P (queue_session_event env s)
  pub keeps_save : (s : KycSession) → Keeps P (save_session s)
  pub keeps_touch : (id : String) (now : ℕ) → Keeps P (touch_session id now)
  pub keeps_insert : (s : KycSession) → Keeps P (insert_session s)
  pub keeps_limiter : (f : Limiter → Limiter) → Keeps P (modify_limiter f)
  pub keeps_task : (d : Dispatch) → Keeps P (push_task d)
  pub keeps_draw : Keeps P draw

-- A frame that any write to the tables beside the sessions and the events keeps.
pub record TableFrame (env : Env) (P : Db → Type 0) : Type 0 where
  pub frame : Frame env P
  pub keeps_challenges : (f : List OtpChallenge → List OtpChallenge) → Keeps P (modify_challenges f)
  pub keeps_documents : (f : List Document → List Document) → Keeps P (modify_documents f)
  pub keeps_artifacts : (f : List Artifact → List Artifact) → Keeps P (modify_artifacts f)
  pub keeps_biometrics :
      (f : List BiometricCheck → List BiometricCheck) → Keeps P (modify_biometrics f)

-- What the OTP engine and the rate limiter are built from.
pub record OtpFrame (env : Env) (P : Db → Type 0) : Type 0 where
  pub keeps_event : (n : NewEvent) → Keeps P (record_event env n)
  pub keeps_limiter : (f : Limiter → Limiter) → Keeps P (modify_limiter f)
  pub keeps_draw : Keeps P draw
  pub keeps_challenges : (f : List OtpChallenge → List OtpChallenge) → Keeps P (modify_challenges f)
  pub keeps_check :
      (sid : String) (step : Step) (status : CheckStatus) (details : Option StepInternal)
      → Keeps P (set_check sid step status details)
