-- ===== src/Biometrics.antt =====
-- app/engines/biometrics.py: liveness, then the match with the document. The face provider is of
-- `ekyc.Env`. The result is a list of steps with their statuses, in the order they were set.
use ekyc.Prelude.{ℕ, true, not, ◌||◌, Option, none, some, List, [], ◌∷◌, ◌++◌, if◌then◌else◌}
use ekyc.Json.{Double, dict, str}
use ekyc.Enums.{CheckStatus, Step, AuditEventType, step_str, check_status_eq}
use ekyc.Models.{KycSession, BiometricCheck, StepInternal, no_details}
use ekyc.Env.{Env, Bytes, FaceResult}
use ekyc.Exec.{Exec, pure, lift, or_raise, provider_error, draw, utcnow, when, ◌>>=◌, ◌>>◌}
use ekyc.Policy.{FlowPolicy, requires}
use ekyc.Audit.{NewEvent, system_event, record_event}
use ekyc.Store.{modify_biometrics}
use ekyc.Kyc.Session.{policy_of}
use ekyc.Kyc.Decide.{set_check}
use ekyc.Identity.{document_image}

abbrev pub Results : Type 0
Results = List (Step × CheckStatus)

abbrev pub new_check : KycSession → Step → CheckStatus → FaceResult → ℕ → BiometricCheck
new_check s kind status result now = record {
  session_id = s.id;
  tenant_id = s.tenant_id;
  kind = step_str kind;
  status = status;
  score = result.score;
  details = result.details;
  created_at = now;
}

-- `_record`
unfoldable pub record_check : KycSession → Step → CheckStatus → FaceResult → Exec (Unit {0})
record_check s kind status result = do
  now ← utcnow
  modify_biometrics (λ rows. rows ++ new_check s kind status result now ∷ [])

module _ (env : Env) where
  -- `PASSED if score >= threshold else FAILED`
  abbrev pub score_status : Double → Double → CheckStatus
  score_status score threshold =
      if env.floats.lt threshold score || env.floats.eq score threshold
      then CheckStatus.passed
      else CheckStatus.failed

abbrev pub liveness_type : CheckStatus → AuditEventType
liveness_type CheckStatus.passed = AuditEventType.liveness_passed
liveness_type _ = AuditEventType.liveness_failed

abbrev pub match_type : CheckStatus → AuditEventType
match_type CheckStatus.passed = AuditEventType.face_match_passed
match_type _ = AuditEventType.face_match_failed

abbrev pub face_event : KycSession → AuditEventType → FaceResult → NewEvent
face_event s type result =
    system_event s.tenant_id s.id type (dict (("provider", str result.provider) ∷ []))

abbrev pub score_details : FaceResult → StepInternal
score_details result = record no_details {
  score = some result.score;
  provider = some result.provider;
}

module _ (env : Env) where
  -- A face match that is failed without a comparison.
  abbrev pub fail_match : KycSession → StepInternal → Results → Exec Results
  fail_match s details results = do
    set_check s.id Step.face_match CheckStatus.failed (some details)
    pure (results ++ (Step.face_match, CheckStatus.failed) ∷ [])

  unfoldable pub compare_faces : KycSession → Bytes → Bytes → Results → Exec Results
  compare_faces s selfie image results = do
    n ← draw
    match ← or_raise (env.match_faces n selfie image) provider_error
    let status = score_status env match.score env.settings.face_match_threshold
    record_check s Step.face_match status match
    record_event env (face_event s (match_type status) match)
    set_check s.id Step.face_match status (some (score_details match))
    pure (results ++ (Step.face_match, status) ∷ [])

  abbrev pub match_document : KycSession → Bytes → Results → Option Bytes → Exec Results
  match_document s selfie results none =
      fail_match s (record no_details { reason = some "NO_DOCUMENT" }) results
  match_document s selfie results (some image) = compare_faces s selfie image results

  -- Behind the liveness check.
  unfoldable pub match_face : KycSession → Bytes → CheckStatus → Results → Exec Results
  match_face s selfie liveness_status results =
      if check_status_eq liveness_status CheckStatus.failed
      then fail_match s (record no_details { skipped = some true }) results
      else do image ← document_image env s.id; match_document s selfie results image

  abbrev pub liveness_results : FlowPolicy → CheckStatus → Results
  liveness_results policy status =
      if requires policy Step.liveness then (Step.liveness, status) ∷ [] else []

  unfoldable pub process_selfie : KycSession → Bytes → Exec Results
  process_selfie s selfie = do
    policy ← lift (policy_of s)
    n ← draw
    live ← or_raise (env.liveness n selfie) provider_error
    let status = score_status env live.score env.settings.liveness_threshold
    record_check s Step.liveness status live
    record_event env (face_event s (liveness_type status) live)
    when (requires policy Step.liveness)
        (set_check s.id Step.liveness status (some (score_details live)))
    let results = liveness_results policy status
    if not (requires policy Step.face_match)
        then pure results
        else match_face s selfie status results
