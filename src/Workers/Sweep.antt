-- ===== src/Workers/Sweep.antt =====
-- app/workers/tasks.py, `reconcile_stuck_sessions`.
use ekyc.Prelude.{
  ℕ, ◌+◌, ◌*◌, String, Bool, true, false, ◌&&◌, Option, none, some, List, [], ◌∷◌, ◌++◌, length,
  select, leb, ltb, non_empty, if◌then◌else◌, str_eq,
}
use ekyc.Enums.{SessionStatus, Step, ArtifactKind, artifact_kind_eq}
use ekyc.Models.{KycSession, Document, Artifact}
use ekyc.Env.{Env}
use ekyc.Exec.{Db, Dispatch, Exec, pure, gets, utcnow, transaction, ◌>>=◌, ◌>>◌}
use ekyc.Store.{lock_session, save_session, push_task}
use ekyc.Kyc.Decide.{expire}
use ekyc.Identity.{latest_document}
use ekyc.Workers.{check_pending}

abbrev pub period : Env → ℕ
period env = env.settings.stuck_session_minutes * 60

-- Still open, and untouched since the cutoff: `updated_at <= now - period`.
abbrev pub is_running : SessionStatus → Bool
is_running SessionStatus.created = true
is_running SessionStatus.in_progress = true
is_running SessionStatus.processing = true
is_running _ = false

abbrev pub is_stuck : Env → ℕ → KycSession → Bool
is_stuck env now s = is_running s.status && leb (s.updated_at + period env) now

-- `reconciled_at > cutoff`
abbrev pub is_recent : Env → ℕ → Option ℕ → Bool
is_recent env now none = false
is_recent env now (some at) = ltb now (at + period env)

abbrev pub is_selfie : String → Artifact → Bool
is_selfie sid a =
    elim a.session_id [ none ↦ false | some owner ↦ str_eq owner sid ]
    && artifact_kind_eq a.kind ArtifactKind.selfie

abbrev pub newer_artifact : Artifact → Option Artifact → Artifact
newer_artifact a none = a
newer_artifact a (some b) = if ltb b.created_at a.created_at then a else b

abbrev pub latest_selfie : String → List Artifact → Option Artifact
latest_selfie sid [] = none
latest_selfie sid (a ∷ rest) =
    let later = latest_selfie sid rest in
    if is_selfie sid a then some (newer_artifact a later) else later

-- The tasks to queue for one session.
abbrev pub document_dispatch : Option Document → List Dispatch
document_dispatch none = []
document_dispatch (some d) = Dispatch.process_document d.id ∷ []

abbrev pub selfie_dispatch : String → Option Artifact → List Dispatch
selfie_dispatch sid none = []
selfie_dispatch sid (some a) = Dispatch.process_selfie sid a.id ∷ []

abbrev pub lost_work : KycSession → Db → List Dispatch
lost_work s db =
    (if check_pending s Step.document_verification
      then document_dispatch (latest_document s.id db.documents)
      else [])
    ++ (if check_pending s Step.liveness
        then selfie_dispatch s.id (latest_selfie s.id db.artifacts)
        else [])

-- The report of a sweep, and the tasks to queue when it has committed.
pub record Sweep : Type 0 where
  pub expired : List String
  pub requeued : List String
  pub scanned : ℕ
  pub to_dispatch : List Dispatch

abbrev pub no_sweep : Sweep
no_sweep = record { expired = []; requeued = []; scanned = 0; to_dispatch = [] }

abbrev pub with_mark : KycSession → ℕ → KycSession
with_mark s now = record s { internal = record (s.internal) { reconciled_at = some now } }

-- `internal.reconciled_at = now` on the locked row
unfoldable pub mark_reconciled : String → ℕ → Exec (Unit {0})
mark_reconciled sid now = do s ← lock_session sid; save_session (with_mark s now)

module _ (env : Env) where
  -- One round of the loop, with the report so far.
  unfoldable pub requeue : KycSession → ℕ → Sweep → Exec Sweep
  requeue s now report = do
    work ← gets (lost_work s)
    if non_empty work
        then (do
          mark_reconciled s.id now
          pure (record report {
            requeued = report.requeued ++ s.id ∷ [];
            to_dispatch = report.to_dispatch ++ work;
          }))
        else pure report

  unfoldable pub sweep_session : KycSession → ℕ → Sweep → Exec Sweep
  sweep_session s now report =
      if leb s.expires_at now
      then (do expire env s.id; pure (record report { expired = report.expired ++ s.id ∷ [] }))
      else if is_recent env now s.internal.reconciled_at
      then pure report
      else requeue s now report

  unfoldable pub sweep_all : List KycSession → ℕ → Sweep → Exec Sweep
  sweep_all [] now report = pure report
  sweep_all (s ∷ rest) now report = do
    report' ← sweep_session s now report
    sweep_all rest now report'

  unfoldable pub sweep : Exec Sweep
  sweep = do
    now ← utcnow
    sessions ← gets (λ db. select (is_stuck env now) db.sessions)
    sweep_all sessions now (record no_sweep { scanned = length sessions })

  -- `task.delay(*args)` for each task
  unfoldable pub dispatch_all : List Dispatch → Exec (Unit {0})
  dispatch_all [] = pure tt
  dispatch_all (d ∷ rest) = do push_task d; dispatch_all rest

  unfoldable pub reconcile_stuck_sessions : Exec Sweep
  reconcile_stuck_sessions = do
    report ← transaction sweep
    dispatch_all report.to_dispatch
    pure report
