-- ===== src/Identity.antt =====
-- app/engines/identity.py: OCR and verification of a document. The OCR provider is of `ekyc.Env`.
use ekyc.Prelude.{
  ℕ, ◌/◌, String, Bool, false, not, ◌||◌, Option, none, some, List, [], ◌∷◌, ltb, ◌==◌,
  if◌then◌else◌, str_eq, lookup, update,
}
use ekyc.Json.{Json, dict, str, int, float, bool, obj}
use ekyc.Enums.{
  CheckStatus, Step, AuditEventType, check_status_str, check_status_eq, document_type_str,
}
use ekyc.Models.{KycSession, Document, Artifact, StepInternal, no_details}
use ekyc.Env.{Env, Bytes, OcrResult, DocumentAuthenticityResult}
use ekyc.Exec.{Exec, pure, gets, or_raise, provider_error, draw, utcnow, when, ◌>>=◌, ◌>>◌}
use ekyc.Audit.{NewEvent, system_event, record_event}
use ekyc.Store.{save_session, modify_documents}
use ekyc.Kyc.Decide.{set_check}
use ekyc.Archive.{read_artifact}

-- `_IDENTITY_FIELDS`
abbrev pub stored_fields : List String
stored_fields =
    "first_name" ∷ "last_name" ∷ "date_of_birth" ∷ "document_number" ∷ "nationality"
    ∷ "issuing_country" ∷ "document_type" ∷ "expiry_date" ∷ "sex" ∷ []

-- `{key: fields.get(key) for key in keys if fields.get(key)}`
abbrev pub read_fields : List (String × String) → List String → List (String × String)
read_fields fields [] = []
read_fields fields (k ∷ ks) = elim (lookup k fields) [
  | none ↦ read_fields fields ks
  | some v ↦ if str_eq v "" then read_fields fields ks else (k, v) ∷ read_fields fields ks
]

-- The rows of a table of documents, and `document.… = …; db.flush()`.
abbrev pub find_document : ℕ → List Document → Option Document
find_document id [] = none
find_document id (d ∷ rest) = if d.id == id then some d else find_document id rest

abbrev pub save_document : Document → List Document → List Document
save_document d [] = []
save_document d (e ∷ rest) = (if e.id == d.id then d else e) ∷ save_document d rest

abbrev pub find_artifact : ℕ → List Artifact → Option Artifact
find_artifact id [] = none
find_artifact id (a ∷ rest) = if a.id == id then some a else find_artifact id rest

-- `order_by(created_at.desc())`, first row; of two of one instant the one added last.
abbrev pub newer_document : Document → Option Document → Document
newer_document d none = d
newer_document d (some e) = if ltb e.created_at d.created_at then d else e

abbrev pub latest_document : String → List Document → Option Document
latest_document sid [] = none
latest_document sid (d ∷ rest) =
    let later = latest_document sid rest in
    if str_eq d.session_id sid then some (newer_document d later) else later

-- A dict of texts as JSON.
abbrev pub text_fields : List (String × String) → List (String × Json)
text_fields [] = []
text_fields ((k, v) ∷ rest) = (k, str v) ∷ text_fields rest

module _ (env : Env) where
  -- `_is_expired`; an empty or unreadable date is not expired.
  abbrev pub day_passed : ℕ → Option ℕ → Bool
  day_passed now none = false
  day_passed now (some day) = ltb day (now / 86400)

  abbrev pub is_expired : ℕ → Option String → Bool
  is_expired now none = false
  is_expired now (some text) =
      if str_eq text "" then false else day_passed now (env.date_fromisoformat text)

  -- The status that the document gets.
  abbrev pub document_status : Bool → DocumentAuthenticityResult → CheckStatus
  document_status expired authenticity =
      if expired || not authenticity.authentic
      then CheckStatus.failed
      else if env.floats.lt authenticity.confidence env.settings.document_review_threshold
      then CheckStatus.review
      else CheckStatus.passed

  abbrev pub with_ocr : Document → OcrResult → Document
  with_ocr d ocr = record d {
    ocr = dict (
        ("fields", obj (dict (text_fields ocr.fields)))
        ∷ ("confidence", float ocr.confidence)
        ∷ ("provider", str ocr.provider)
        ∷ []);
  }

  abbrev pub with_verification :
      Document → DocumentAuthenticityResult → Bool → CheckStatus → ℕ → Document
  with_verification d authenticity expired status now = record d {
    verification = dict (
        ("authentic", bool authenticity.authentic)
        ∷ ("confidence", float authenticity.confidence)
        ∷ ("signals", obj authenticity.signals)
        ∷ ("expired", bool expired)
        ∷ ("provider", str authenticity.provider)
        ∷ []);
    confidence = authenticity.confidence;
    processed_at = some now;
    status = status;
  }

  abbrev pub ocr_event : KycSession → OcrResult → NewEvent
  ocr_event s ocr =
      system_event s.tenant_id s.id AuditEventType.ocr_completed
        (dict (("provider", str ocr.provider) ∷ ("confidence", float ocr.confidence) ∷ []))

  abbrev pub verdict_type : CheckStatus → AuditEventType
  verdict_type CheckStatus.passed = AuditEventType.document_verified
  verdict_type _ = AuditEventType.document_rejected

  abbrev pub document_event : KycSession → Document → CheckStatus → Bool → NewEvent
  document_event s d status expired = system_event s.tenant_id s.id (verdict_type status) (
      dict (
        ("status", str (check_status_str status))
        ∷ ("expired", bool expired)
        ∷ ("document_id", int d.id)
        ∷ []))

  abbrev pub document_details : OcrResult → DocumentAuthenticityResult → StepInternal
  document_details ocr authenticity = record no_details {
    ocr_confidence = some ocr.confidence;
    authenticity_confidence = some authenticity.confidence;
    provider = some authenticity.provider;
  }

  abbrev pub identified : KycSession → OcrResult → KycSession
  identified s ocr = record s {
    identity = update s.identity (read_fields ocr.fields stored_fields);
  }

  -- Behind the two calls of the provider.
  unfoldable pub apply_document :
      KycSession → Document → OcrResult → DocumentAuthenticityResult → Exec CheckStatus
  apply_document s d ocr authenticity = do
    now ← utcnow
    let expired = is_expired now (lookup "expiry_date" ocr.fields)
    let status = document_status expired authenticity
    modify_documents
        (save_document (with_verification (with_ocr d ocr) authenticity expired status now))
    record_event env (document_event s d status expired)
    when (not (check_status_eq status CheckStatus.failed)) (save_session (identified s ocr))
    set_check s.id Step.document_verification status (some (document_details ocr authenticity))
    pure status

  unfoldable pub process_document : KycSession → Document → Bytes → Exec CheckStatus
  process_document s d image = do
    n ← draw
    ocr ← or_raise (env.ocr_extract n image (document_type_str d.document_type)) provider_error
    modify_documents (save_document (with_ocr d ocr))
    record_event env (ocr_event s ocr)
    m ← draw
    authenticity ← or_raise (env.check_authenticity m image ocr) provider_error
    apply_document s d ocr authenticity

  abbrev pub image_of : Option Artifact → Exec (Option Bytes)
  image_of none = pure none
  image_of (some a) = do image ← read_artifact env a; pure (some image)

  abbrev pub image_of_document : Option Document → Exec (Option Bytes)
  image_of_document none = pure none
  image_of_document (some d) = do
    a ← gets (λ db. find_artifact d.artifact_id db.artifacts)
    image_of a

  -- `document_image`, the image alone.
  unfoldable pub document_image : String → Exec (Option Bytes)
  document_image sid = do d ← gets (λ db. latest_document sid db.documents); image_of_document d
