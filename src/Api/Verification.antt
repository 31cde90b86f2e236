-- ===== src/Api/Verification.antt =====
-- app/api/v1/verification.py: the calls of the end-user's page. What a call wrote before a commit is
-- rolled back where it raises before that commit; a task is queued behind the commit.
use ekyc.Prelude.{
  ℕ, ◌*◌, String, concat, Bool, true, false, not, Option, none, some, List, [], ◌∷◌, ◌++◌, length,
  non_empty, ltb, or_else,
}
use ekyc.Json.{Fields, end, dict, str, int}
use ekyc.Enums.{
  SessionStatus, CheckStatus, Step, DocumentType, ArtifactKind, AuditEventType, OtpChannel,
  document_type_str,
}
use ekyc.Models.{KycSession, Tenant, Document, Artifact, Consent}
use ekyc.Env.{Env, Bytes}
use ekyc.Exec.{
  Db, Exn, Dispatch, Result, ok, err, http, Exec, pure, raise, raise_if, gets, lift, draw, utcnow,
  transaction, ◌>>=◌, ◌>>◌,
}
use ekyc.Policy.{requires, accepts}
use ekyc.Orchestrator.{truthy}
use ekyc.Audit.{NewEvent, record_event}
use ekyc.Store.{find_tenant, load_session, modify_documents, push_task}
use ekyc.Kyc.Session
use ekyc.Kyc.Session.{grant_consent, decline_consent, policy_of, consent_given}
use ekyc.Kyc.Decide.{evaluate}
use ekyc.Archive.{store_artifact}
use ekyc.Otp
use ekyc.Api.{raising_as, require_open}

abbrev pub max_upload_bytes : ℕ
max_upload_bytes = 10 * 1024 * 1024

-- `UploadFile`
pub record Upload : Type 0 where
  pub filename : Option String
  pub content_type : Option String
  pub body : Bytes

-- `_read_upload`
unfoldable pub read_upload : Upload → Exec Bytes
read_upload file = do
  raise_if (not (non_empty file.body)) (http 400 "Empty upload")
  raise_if (ltb max_upload_bytes (length file.body)) (http 413 "File too large")
  pure file.body

-- `StepResultResponse`
pub record StepResult : Type 0 where
  pub session_id : String
  pub status : SessionStatus
  pub checks : Step → Option CheckStatus

-- `_step_result`: the row is read anew.
unfoldable pub step_result : String → Exec StepResult
step_result sid = do
  s ← load_session sid
  pure (record { session_id = s.id; status = s.status; checks = s.checks })

abbrev pub consent_error : Exn → Exn
consent_error Exn.consent_required = http 409 "CONSENT_REQUIRED"
consent_error e = e

-- `_require_consent`
unfoldable pub demand_consent : KycSession → Exec (Unit {0})
demand_consent s = raising_as consent_error (Session.require_consent s)

-- `SessionContextResponse`
pub record SessionContext : Type 0 where
  pub session_id : String
  pub flow : String
  pub flow_label : String
  pub status : SessionStatus
  pub steps : List Step
  pub accepted_documents : List DocumentType
  pub checks : Step → Option CheckStatus
  pub branding : Fields
  pub consent_required : Bool
  pub consent_accepted : Bool
  pub policy_version : Option String
  pub expires_at : ℕ

abbrev pub branding_of : Option Tenant → Fields
branding_of none = end
branding_of (some t) = t.branding

abbrev pub version_of : Option Consent → Option String
version_of none = none
version_of (some c) = some c.policy_version

unfoldable pub context : KycSession → Exec SessionContext
context s = do
  policy ← lift (policy_of s)
  tenant ← gets (λ db. find_tenant s.tenant_id db.tenants)
  pure (record {
    session_id = s.id;
    flow = policy.name;
    flow_label = policy.label;
    status = s.status;
    steps = policy.steps;
    accepted_documents = policy.accepted_documents;
    checks = s.checks;
    branding = branding_of tenant;
    consent_required = policy.requires_consent;
    consent_accepted = consent_given s.consent;
    policy_version = version_of s.consent;
    expires_at = s.expires_at;
  })

abbrev pub end_user_event :
    KycSession → AuditEventType → Fields → Option String → Option String → NewEvent
end_user_event s type payload ip hash = record {
  tenant_id = s.tenant_id;
  session_id = s.id;
  event_type = type;
  payload = payload;
  actor = "END_USER";
  ip = ip;
  user_agent = none;
  document_hash = hash;
}

abbrev pub new_document : KycSession → DocumentType → Artifact → ℕ → ℕ → Document
new_document s type a id now = record {
  id = id;
  session_id = s.id;
  tenant_id = s.tenant_id;
  document_type = type;
  artifact_id = a.id;
  ocr = end;
  verification = end;
  status = CheckStatus.pending;
  confidence = record { bits = 0 };
  created_at = now;
  processed_at = none;
}

module _ (env : Env) where
  -- `consent`; the declined consent is committed before the call is refused.
  unfoldable pub consent :
      KycSession
      → (accepted : Bool) → (policy_version : String) → (ip agent : Option String) → Exec StepResult
  consent s true version ip agent = do
    transaction (require_open s >> lift (policy_of s) >> grant_consent env s.id version ip agent)
    step_result s.id
  consent s false version ip agent = do
    transaction (require_open s >> lift (policy_of s) >> decline_consent env s.id version ip)
    raise (http 409 "CONSENT_DECLINED")

  abbrev pub store_upload : KycSession → ArtifactKind → String → Upload → Bytes → Exec Artifact
  store_upload s kind name file plain =
      store_artifact env s.tenant_id (some s.id) kind (or_else (truthy file.filename) name) plain
        (or_else (truthy file.content_type) "application/octet-stream") (some s.vault_profile)

  -- `upload_document` up to its commit.
  unfoldable pub capture_document : KycSession → Option String → DocumentType → Upload → Exec ℕ
  capture_document s ip type file = do
    require_open s
    demand_consent s
    policy ← lift (policy_of s)
    raise_if (not (accepts policy type)) (
        http 400
          (concat (document_type_str type) (concat " is not accepted for flow " policy.name)))
    plain ← read_upload file
    a ← store_upload s ArtifactKind.document_image "document" file plain
    id ← draw
    now ← utcnow
    modify_documents (λ rows. rows ++ new_document s type a id now ∷ [])
    record_event env (
        end_user_event s AuditEventType.document_uploaded
          (dict (("document_type", str (document_type_str type)) ∷ ("document_id", int id) ∷ [])) ip
          (some a.sha256))
    pure id

  -- `upload_document`: the id of the document and the state of the session.
  unfoldable pub upload_document :
      KycSession → Option String → DocumentType → Upload → Exec (ℕ × StepResult)
  upload_document s ip type file = do
    id ← transaction (capture_document s ip type file)
    push_task (Dispatch.process_document id)
    result ← step_result s.id
    pure (id, result)

  -- `upload_selfie` up to its commit.
  unfoldable pub capture_selfie : KycSession → Option String → Upload → Exec ℕ
  capture_selfie s ip file = do
    require_open s
    demand_consent s
    plain ← read_upload file
    a ← store_upload s ArtifactKind.selfie "selfie" file plain
    record_event env (
        end_user_event s AuditEventType.selfie_captured (dict (("artifact_id", int a.id) ∷ [])) ip
          (some a.sha256))
    pure a.id

  unfoldable pub upload_selfie : KycSession → Option String → Upload → Exec StepResult
  upload_selfie s ip file = do
    id ← transaction (capture_selfie s ip file)
    push_task (Dispatch.process_selfie s.id id)
    step_result s.id

  -- `OtpSendResponse`
  pub record OtpSent : Type 0 where
    pub channel : String
    pub destination : String
    pub expires_in : ℕ

  abbrev pub send_error : Exn → Exn
  send_error Exn.otp_rate_limited = http 429 "OTP_RATE_LIMITED"
  send_error Exn.otp_delivery_error = http 503 "OTP_DELIVERY_UNAVAILABLE"
  send_error e = e

  unfoldable pub send_otp : KycSession → OtpChannel → String → Exec OtpSent
  send_otp s channel destination = transaction do
    require_open s
    demand_consent s
    policy ← lift (policy_of s)
    raise_if (not (requires policy Step.otp)) (http 400 "OTP is not part of this flow")
    c ← raising_as send_error (Otp.send_otp env s.id channel destination)
    pure (record {
      channel = c.channel;
      destination = c.destination_masked;
      expires_in = env.settings.otp_ttl_seconds;
    })

  abbrev pub refused : Exn → Result (Result Bool)
  refused (Exn.otp_error reason) = ok (err (http 400 reason))
  refused e = err e

  -- The verification, or the text of an `OtpError`.
  abbrev pub or_refused : Result Bool × Db → Result (Result Bool) × Db
  or_refused (ok verified, db) = (ok (ok verified), db)
  or_refused (err e, db) = (refused e, db)

  abbrev pub try_code : String → String → Exec (Result Bool)
  try_code sid code db = or_refused (Otp.verify_otp env sid code db)

  abbrev pub when_verified : String → Result Bool → Exec (Result Bool)
  when_verified sid (ok true) = do evaluate env sid; pure (ok true)
  when_verified sid r = pure r

  -- `verify_otp`; a refused code is committed before the call is refused.
  unfoldable pub verify_otp : KycSession → String → Exec Bool
  verify_otp s code = do
    outcome ← transaction do
      require_open s
      demand_consent s
      outcome ← try_code s.id code
      when_verified s.id outcome
    lift outcome
