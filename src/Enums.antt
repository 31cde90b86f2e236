-- ===== src/Enums.antt =====
-- app/models/enums.py: the enumerations, the text of each member (`StrEnum.__str__`), equality of
-- members, and the set of terminal statuses.
use ekyc.Prelude.{String, ◌≡◌, refl, Bool, true, false, arith}

pub data SessionStatus : Type 0 where
  created in_progress processing verified rejected review expired : SessionStatus

pub data CheckStatus : Type 0 where
  pending passed failed review skipped : CheckStatus

pub data Step : Type 0 where
  document ocr document_verification selfie liveness face_match otp signature : Step

pub data DocumentType : Type 0 where
  passport national_id residence_permit driving_license : DocumentType

pub data ArtifactKind : Type 0 where
  document_image selfie contract signed_contract timestamp_token audit_export audit_checkpoint :
      ArtifactKind

pub data OtpChannel : Type 0 where
  sms email whatsapp : OtpChannel

pub data AuditEventType : Type 0 where
  kyc_session_created consent_given consent_declined document_uploaded ocr_completed
        document_verified document_rejected selfie_captured liveness_passed liveness_failed
        face_match_passed face_match_failed otp_sent otp_verified otp_failed kyc_decision
        contract_generated hash_generated document_signed timestamped document_archived data_purged
        decision_blocked decision_overridden processing_failed session_expired webhook_delivered
        webhook_failed :
      AuditEventType

abbrev pub session_status_str : SessionStatus → String
session_status_str SessionStatus.created = "CREATED"
session_status_str SessionStatus.in_progress = "IN_PROGRESS"
session_status_str SessionStatus.processing = "PROCESSING"
session_status_str SessionStatus.verified = "VERIFIED"
session_status_str SessionStatus.rejected = "REJECTED"
session_status_str SessionStatus.review = "REVIEW"
session_status_str SessionStatus.expired = "EXPIRED"

abbrev pub check_status_str : CheckStatus → String
check_status_str CheckStatus.pending = "PENDING"
check_status_str CheckStatus.passed = "PASSED"
check_status_str CheckStatus.failed = "FAILED"
check_status_str CheckStatus.review = "REVIEW"
check_status_str CheckStatus.skipped = "SKIPPED"

abbrev pub step_str : Step → String
step_str Step.document = "DOCUMENT"
step_str Step.ocr = "OCR"
step_str Step.document_verification = "DOCUMENT_VERIFICATION"
step_str Step.selfie = "SELFIE"
step_str Step.liveness = "LIVENESS"
step_str Step.face_match = "FACE_MATCH"
step_str Step.otp = "OTP"
step_str Step.signature = "SIGNATURE"

abbrev pub document_type_str : DocumentType → String
document_type_str DocumentType.passport = "PASSPORT"
document_type_str DocumentType.national_id = "NATIONAL_ID"
document_type_str DocumentType.residence_permit = "RESIDENCE_PERMIT"
document_type_str DocumentType.driving_license = "DRIVING_LICENSE"

abbrev pub artifact_kind_str : ArtifactKind → String
artifact_kind_str ArtifactKind.document_image = "DOCUMENT_IMAGE"
artifact_kind_str ArtifactKind.selfie = "SELFIE"
artifact_kind_str ArtifactKind.contract = "CONTRACT"
artifact_kind_str ArtifactKind.signed_contract = "SIGNED_CONTRACT"
artifact_kind_str ArtifactKind.timestamp_token = "TIMESTAMP_TOKEN"
artifact_kind_str ArtifactKind.audit_export = "AUDIT_EXPORT"
artifact_kind_str ArtifactKind.audit_checkpoint = "AUDIT_CHECKPOINT"

abbrev pub otp_channel_str : OtpChannel → String
otp_channel_str OtpChannel.sms = "SMS"
otp_channel_str OtpChannel.email = "EMAIL"
otp_channel_str OtpChannel.whatsapp = "WHATSAPP"

abbrev pub audit_event_type_str : AuditEventType → String
audit_event_type_str AuditEventType.kyc_session_created = "KYC_SESSION_CREATED"
audit_event_type_str AuditEventType.consent_given = "CONSENT_GIVEN"
audit_event_type_str AuditEventType.consent_declined = "CONSENT_DECLINED"
audit_event_type_str AuditEventType.document_uploaded = "DOCUMENT_UPLOADED"
audit_event_type_str AuditEventType.ocr_completed = "OCR_COMPLETED"
audit_event_type_str AuditEventType.document_verified = "DOCUMENT_VERIFIED"
audit_event_type_str AuditEventType.document_rejected = "DOCUMENT_REJECTED"
audit_event_type_str AuditEventType.selfie_captured = "SELFIE_CAPTURED"
audit_event_type_str AuditEventType.liveness_passed = "LIVENESS_PASSED"
audit_event_type_str AuditEventType.liveness_failed = "LIVENESS_FAILED"
audit_event_type_str AuditEventType.face_match_passed = "FACE_MATCH_PASSED"
audit_event_type_str AuditEventType.face_match_failed = "FACE_MATCH_FAILED"
audit_event_type_str AuditEventType.otp_sent = "OTP_SENT"
audit_event_type_str AuditEventType.otp_verified = "OTP_VERIFIED"
audit_event_type_str AuditEventType.otp_failed = "OTP_FAILED"
audit_event_type_str AuditEventType.kyc_decision = "KYC_DECISION"
audit_event_type_str AuditEventType.contract_generated = "CONTRACT_GENERATED"
audit_event_type_str AuditEventType.hash_generated = "HASH_GENERATED"
audit_event_type_str AuditEventType.document_signed = "DOCUMENT_SIGNED"
audit_event_type_str AuditEventType.timestamped = "TIMESTAMPED"
audit_event_type_str AuditEventType.document_archived = "DOCUMENT_ARCHIVED"
audit_event_type_str AuditEventType.data_purged = "DATA_PURGED"
audit_event_type_str AuditEventType.decision_blocked = "DECISION_BLOCKED"
audit_event_type_str AuditEventType.decision_overridden = "DECISION_OVERRIDDEN"
audit_event_type_str AuditEventType.processing_failed = "PROCESSING_FAILED"
audit_event_type_str AuditEventType.session_expired = "SESSION_EXPIRED"
audit_event_type_str AuditEventType.webhook_delivered = "WEBHOOK_DELIVERED"
audit_event_type_str AuditEventType.webhook_failed = "WEBHOOK_FAILED"

abbrev pub session_status_eq : SessionStatus → SessionStatus → Bool
session_status_eq SessionStatus.created SessionStatus.created = true
session_status_eq SessionStatus.in_progress SessionStatus.in_progress = true
session_status_eq SessionStatus.processing SessionStatus.processing = true
session_status_eq SessionStatus.verified SessionStatus.verified = true
session_status_eq SessionStatus.rejected SessionStatus.rejected = true
session_status_eq SessionStatus.review SessionStatus.review = true
session_status_eq SessionStatus.expired SessionStatus.expired = true
session_status_eq _ _ = false

abbrev pub check_status_eq : CheckStatus → CheckStatus → Bool
check_status_eq CheckStatus.pending CheckStatus.pending = true
check_status_eq CheckStatus.passed CheckStatus.passed = true
check_status_eq CheckStatus.failed CheckStatus.failed = true
check_status_eq CheckStatus.review CheckStatus.review = true
check_status_eq CheckStatus.skipped CheckStatus.skipped = true
check_status_eq _ _ = false

abbrev pub step_eq : Step → Step → Bool
step_eq Step.document Step.document = true
step_eq Step.ocr Step.ocr = true
step_eq Step.document_verification Step.document_verification = true
step_eq Step.selfie Step.selfie = true
step_eq Step.liveness Step.liveness = true
step_eq Step.face_match Step.face_match = true
step_eq Step.otp Step.otp = true
step_eq Step.signature Step.signature = true
step_eq _ _ = false

abbrev pub document_type_eq : DocumentType → DocumentType → Bool
document_type_eq DocumentType.passport DocumentType.passport = true
document_type_eq DocumentType.national_id DocumentType.national_id = true
document_type_eq DocumentType.residence_permit DocumentType.residence_permit = true
document_type_eq DocumentType.driving_license DocumentType.driving_license = true
document_type_eq _ _ = false

abbrev pub artifact_kind_eq : ArtifactKind → ArtifactKind → Bool
artifact_kind_eq ArtifactKind.document_image ArtifactKind.document_image = true
artifact_kind_eq ArtifactKind.selfie ArtifactKind.selfie = true
artifact_kind_eq ArtifactKind.contract ArtifactKind.contract = true
artifact_kind_eq ArtifactKind.signed_contract ArtifactKind.signed_contract = true
artifact_kind_eq ArtifactKind.timestamp_token ArtifactKind.timestamp_token = true
artifact_kind_eq ArtifactKind.audit_export ArtifactKind.audit_export = true
artifact_kind_eq ArtifactKind.audit_checkpoint ArtifactKind.audit_checkpoint = true
artifact_kind_eq _ _ = false

-- `TERMINAL_STATUSES`
abbrev pub is_terminal : SessionStatus → Bool
is_terminal SessionStatus.verified = true
is_terminal SessionStatus.rejected = true
is_terminal SessionStatus.review = true
is_terminal SessionStatus.expired = true
is_terminal _ = false

pub step_eq_sound : (a b : Step) → step_eq a b ≡ true → a ≡ b
step_eq_sound a b h = ground arith

pub step_eq_refl : (a : Step) → step_eq a a ≡ true
step_eq_refl Step.document = refl
step_eq_refl Step.ocr = refl
step_eq_refl Step.document_verification = refl
step_eq_refl Step.selfie = refl
step_eq_refl Step.liveness = refl
step_eq_refl Step.face_match = refl
step_eq_refl Step.otp = refl
step_eq_refl Step.signature = refl

pub session_status_eq_sound : (a b : SessionStatus) → session_status_eq a b ≡ true → a ≡ b
session_status_eq_sound a b h = ground arith

pub session_status_eq_refl : (a : SessionStatus) → session_status_eq a a ≡ true
session_status_eq_refl SessionStatus.created = refl
session_status_eq_refl SessionStatus.in_progress = refl
session_status_eq_refl SessionStatus.processing = refl
session_status_eq_refl SessionStatus.verified = refl
session_status_eq_refl SessionStatus.rejected = refl
session_status_eq_refl SessionStatus.review = refl
session_status_eq_refl SessionStatus.expired = refl

pub check_status_eq_sound : (a b : CheckStatus) → check_status_eq a b ≡ true → a ≡ b
check_status_eq_sound a b h = ground arith

pub check_status_eq_refl : (a : CheckStatus) → check_status_eq a a ≡ true
check_status_eq_refl CheckStatus.pending = refl
check_status_eq_refl CheckStatus.passed = refl
check_status_eq_refl CheckStatus.failed = refl
check_status_eq_refl CheckStatus.review = refl
check_status_eq_refl CheckStatus.skipped = refl
