-- ===== src/Models.antt =====
-- app/models/*.py: the database rows. A timestamp is a number of seconds. JSON columns with a known
-- shape are records or functions of their keys; `None` is `none`. Columns that SQLAlchemy fills
-- (`created_at` of a session, the ids) are fields like the others.
use ekyc.Prelude.{ℕ, String, Bool, Option, none, List}
use ekyc.Json.{Double, Fields}
use ekyc.Enums.{SessionStatus, CheckStatus, Step, ArtifactKind, DocumentType}

-- app/models/tenant.py
pub record Tenant : Type 0 where
  pub id : String
  pub name : String
  pub client_id : String
  pub client_secret_hash : String
  pub active : Bool
  pub webhook_url : Option String
  pub webhook_secret : Option String
  pub allowed_flows : List String
  pub branding : Fields
  pub retention_days : ℕ
  pub default_jurisdiction : Option String
  pub created_at : ℕ

-- `internal[step]`: what the engines and tasks store about one step.
pub record StepInternal : Type 0 where
  pub ocr_confidence : Option Double
  pub authenticity_confidence : Option Double
  pub score : Option Double
  pub provider : Option String
  pub reason : Option String
  pub task : Option String
  pub attempts : Option ℕ
  pub skipped : Option Bool

-- `internal["risk"]`
pub record Risk : Type 0 where
  pub score : Double
  pub level : String

-- `internal`: the entries of the steps, of the risk engine and of the reconciliation sweep.
pub record Internal : Type 0 where
  pub by_step : Step → Option StepInternal
  pub risk : Option Risk
  pub reconciled_at : Option ℕ

-- `consent`, once given.
pub record Consent : Type 0 where
  pub accepted : Bool
  pub at : ℕ
  pub policy_version : String
  pub ip : Option String
  pub user_agent : Option String

-- app/models/session.py
pub record KycSession : Type 0 where
  pub id : String
  pub tenant_id : String
  pub customer_reference : Option String
  pub flow : String
  pub status : SessionStatus
  pub access_token_hash : String
  pub expires_at : ℕ
  pub jurisdiction : String
  pub vault_profile : String
  pub retention_days : ℕ
  pub tsa_policy : String
  pub signature_level : String
  pub identity : List (String × String)
  pub checks : Step → Option CheckStatus
  pub internal : Internal
  pub consent : Option Consent
  pub metadata : Fields
  pub reasons : List String
  pub created_at : ℕ
  pub updated_at : ℕ
  pub completed_at : Option ℕ
  pub purged_at : Option ℕ

-- app/models/audit.py
pub record AuditEvent : Type 0 where
  pub tenant_id : String
  pub session_id : String
  pub sequence : ℕ
  pub event_type : String
  pub actor : String
  pub ip : Option String
  pub user_agent : Option String
  pub payload : Fields
  pub document_hash : Option String
  pub previous_event_hash : Option String
  pub event_hash : String
  pub created_at : ℕ

-- app/models/otp.py
pub record OtpChallenge : Type 0 where
  pub id : ℕ
  pub session_id : String
  pub tenant_id : String
  pub channel : String
  pub destination_masked : String
  pub destination_hash : String
  pub code_hash : String
  pub attempts : ℕ
  pub expires_at : ℕ
  pub verified_at : Option ℕ
  pub created_at : ℕ

-- app/models/document.py
pub record Artifact : Type 0 where
  pub id : ℕ
  pub tenant_id : String
  pub session_id : Option String
  pub kind : ArtifactKind
  pub storage_key : String
  pub vault_profile : String
  pub content_type : String
  pub size_bytes : ℕ
  pub sha256 : String
  pub created_at : ℕ
  pub purged_at : Option ℕ

pub record Document : Type 0 where
  pub id : ℕ
  pub session_id : String
  pub tenant_id : String
  pub document_type : DocumentType
  pub artifact_id : ℕ
  pub ocr : Fields
  pub verification : Fields
  pub status : CheckStatus
  pub confidence : Double
  pub created_at : ℕ
  pub processed_at : Option ℕ

-- app/models/biometrics.py
pub record BiometricCheck : Type 0 where
  pub session_id : String
  pub tenant_id : String
  pub kind : String
  pub status : CheckStatus
  pub score : Double
  pub details : Fields
  pub created_at : ℕ

-- app/models/webhook.py
pub record WebhookDelivery : Type 0 where
  pub id : ℕ
  pub tenant_id : String
  pub session_id : String
  pub event : String
  pub url : String
  pub payload : Fields
  pub status : String
  pub attempts : ℕ
  pub response_code : Option ℕ
  pub last_error : Option String
  pub created_at : ℕ
  pub delivered_at : Option ℕ

-- `timestamp_details`: the keys that the evidence pipeline writes and the program reads back.
pub record TimestampDetails : Type 0 where
  pub qualified : Bool
  pub provider : String
  pub issued_at : String

-- app/models/signature.py
pub record SignedDocument : Type 0 where
  pub id : ℕ
  pub tenant_id : String
  pub session_id : String
  pub document_reference : Option String
  pub source_artifact_id : ℕ
  pub signed_artifact_id : ℕ
  pub sha256 : String
  pub signature : String
  pub signature_algorithm : String
  pub certificate_fingerprint : Option String
  pub timestamp_authority : Option String
  pub timestamp_token_artifact_id : Option ℕ
  pub timestamped_at : Option ℕ
  pub timestamp_details : TimestampDetails
  pub created_at : ℕ

abbrev pub no_details : StepInternal
no_details = record {
  ocr_confidence = none;
  authenticity_confidence = none;
  score = none;
  provider = none;
  reason = none;
  task = none;
  attempts = none;
  skipped = none;
}

abbrev pub no_internal : Internal
no_internal = record { by_step = λ s. none; risk = none; reconciled_at = none }
