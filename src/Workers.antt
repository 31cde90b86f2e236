-- ===== src/Workers.antt =====
-- app/workers/tasks.py: the tasks that process a document and a selfie, with what follows a failure.
-- Log lines are not modelled.
pub mod Delivery
pub mod Delivered
pub mod Unrecorded
pub mod Failures
pub mod Sweep
use ekyc.Prelude.{
  ℕ, zero, suc, String, Bool, true, false, Option, none, some, List, [], ◌∷◌, select, map,
  if◌then◌else◌,
}
use ekyc.Json.{Fields, dict, str, arr, strings}
use ekyc.Enums.{
  SessionStatus, CheckStatus, Step, AuditEventType, is_terminal, check_status_eq,
  session_status_str, step_str,
}
use ekyc.Models.{KycSession, Document, Artifact, StepInternal, no_details}
use ekyc.Env.{Env}
use ekyc.Exec.{
  Db, Exn, Result, ok, err, Exec, pure, gets, transaction, value_error, storage_error, vault_error,
  unknown_vault, ◌>>=◌, ◌>>◌,
}
use ekyc.Decision.{status_of}
use ekyc.Audit.{NewEvent, system_event, record_event}
use ekyc.Store.{find_session}
use ekyc.Kyc.Decide.{set_check, evaluate}
use ekyc.Archive.{read_artifact}
use ekyc.Identity
use ekyc.Identity.{find_document, find_artifact}
use ekyc.Biometrics

-- `_check_pending`
abbrev pub check_pending : KycSession → Step → Bool
check_pending s step = check_status_eq (status_of s.checks step) CheckStatus.pending

-- `_PERMANENT_FAILURES`, as far as the model has them.
abbrev pub is_permanent : Exn → Bool
is_permanent Exn.value_error = true
is_permanent Exn.file_not_found = true
is_permanent Exn.unknown_flow = true
is_permanent Exn.unknown_jurisdiction = true
is_permanent Exn.unknown_tsa = true
is_permanent Exn.unknown_signer = true
is_permanent Exn.vault_error = true
is_permanent Exn.unknown_vault = true
is_permanent _ = false

-- `_TASK_MAX_RETRIES`
abbrev pub task_max_retries : ℕ
task_max_retries = 3

-- The retry options of the task decorator: a failure that is not permanent runs the task again, as
-- often as given.
abbrev pub retry_or : {A : Type 0} → (Exn → Bool) → Exec A → Result A × Db → Result A × Db
retry_or permanent again (ok a, db) = (ok a, db)
retry_or permanent again (err e, db) = if permanent e then (err e, db) else again db

unfoldable pub retrying : {A : Type 0} → ℕ → (Exn → Bool) → Exec A → Exec A
retrying zero permanent m db = m db
retrying (suc retries) permanent m db = retry_or permanent (retrying retries permanent m) (m db)

module _ (env : Env) where
  abbrev pub failed_event : KycSession → String → String → List Step → NewEvent
  failed_event s error task pending =
      system_event s.tenant_id s.id AuditEventType.processing_failed (
        dict (
          ("task", str task)
          ∷ ("error", str error)
          ∷ ("pending_steps", strings (map step_str pending))
          ∷ []))

  abbrev pub failed_details : String → StepInternal
  failed_details task = record no_details { reason = some "TASK_FAILED"; task = some task }

  -- The loop over the pending steps.
  unfoldable pub review_steps : String → String → List Step → Exec (Unit {0})
  review_steps sid task [] = pure tt
  review_steps sid task (step ∷ rest) = do
    set_check sid step CheckStatus.review (some (failed_details task))
    review_steps sid task rest

  unfoldable pub send_to_review : KycSession → (error task : String) → List Step → Exec (Unit {0})
  unfolding review_steps
  send_to_review s error task steps = do
    record_event env (failed_event s error task (select (check_pending s) steps))
    review_steps s.id task (select (check_pending s) steps)
    evaluate env s.id
    pure tt

  abbrev pub fail_session : Option KycSession → String → String → List Step → Exec (Unit {0})
  fail_session none error task steps = pure tt
  fail_session (some s) error task steps =
      if is_terminal s.status then pure tt else send_to_review s error task steps

  -- `except Exception`
  abbrev pub swallowed : Result (Unit {0}) × Db → Result (Unit {0}) × Db
  swallowed (r, db) = (ok tt, db)

  -- `_processing_failed`, with the text of the exception.
  unfoldable pub processing_failed : (error task sid : String) → List Step → Exec (Unit {0})
  processing_failed error task sid steps db = swallowed (
      transaction
        (gets (λ db. find_session sid db.sessions) >>= λ s. fail_session s error task steps) db)

  -- The part of a task behind the look-ups.
  unfoldable pub apply_document : KycSession → Document → Artifact → Exec String
  apply_document s d a =
      if check_pending s Step.document_verification
      then (do
        image ← read_artifact env a
        Identity.process_document env s d image
        status ← evaluate env s.id
        pure (session_status_str status))
      else pure "ALREADY_APPLIED"

  abbrev pub document_of : Document → Option KycSession → Option Artifact → Exec String
  document_of d (some s) (some a) = apply_document s d a
  document_of d _ _ = pure "MISSING_SESSION"

  abbrev pub document_task : Option Document → Exec String
  document_task none = pure "MISSING_DOCUMENT"
  document_task (some d) = do
    s ← gets (λ db. find_session d.session_id db.sessions)
    a ← gets (λ db. find_artifact d.artifact_id db.artifacts)
    document_of d s a

  -- One execution of `process_document`.
  unfoldable pub process_document : ℕ → Exec String
  process_document id =
      transaction do d ← gets (λ db. find_document id db.documents); document_task d

  unfoldable pub apply_selfie : KycSession → Artifact → Exec String
  apply_selfie s a =
      if check_pending s Step.liveness
      then (do
        selfie ← read_artifact env a
        Biometrics.process_selfie env s selfie
        status ← evaluate env s.id
        pure (session_status_str status))
      else pure "ALREADY_APPLIED"

  abbrev pub selfie_of : Option KycSession → Option Artifact → Exec String
  selfie_of (some s) (some a) = apply_selfie s a
  selfie_of _ _ = pure "MISSING_SESSION"

  -- One execution of `process_selfie`.
  unfoldable pub process_selfie : String → ℕ → Exec String
  process_selfie sid id = transaction do
    s ← gets (λ db. find_session sid db.sessions)
    a ← gets (λ db. find_artifact id db.artifacts)
    selfie_of s a

  abbrev pub document_session : Option Document → Option String
  document_session none = none
  document_session (some d) = some d.session_id

  -- `_on_document_failure` and `_on_selfie_failure`
  abbrev pub on_document_failure : String → Option String → Exec (Unit {0})
  on_document_failure error none = pure tt
  on_document_failure error (some sid) =
      processing_failed error "ekyc.process_document" sid (Step.document_verification ∷ [])

  abbrev pub on_selfie_failure : String → String → Exec (Unit {0})
  on_selfie_failure error sid =
      processing_failed error "ekyc.process_selfie" sid (Step.liveness ∷ Step.face_match ∷ [])

  -- A task from its first execution to its end: the result, or the hook of its failure. `describe`
  -- is `str(exc)[:500]`.
  module _ (describe : Exn → String) where
    abbrev pub end_document : ℕ → Result String × Db → Db
    end_document id (ok text, db) = db
    end_document id (err e, db) =
        (on_document_failure (describe e) (document_session (find_document id db.documents)) db).1

    unfoldable pub run_document : ℕ → Db → Db
    run_document id db =
        end_document id (retrying task_max_retries is_permanent (process_document id) db)

    abbrev pub end_selfie : String → Result String × Db → Db
    end_selfie sid (ok text, db) = db
    end_selfie sid (err e, db) = (on_selfie_failure (describe e) sid db).1

    unfoldable pub run_selfie : String → ℕ → Db → Db
    run_selfie sid id db =
        end_selfie sid (retrying task_max_retries is_permanent (process_selfie sid id) db)
