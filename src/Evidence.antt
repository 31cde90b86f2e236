-- ===== src/Evidence.antt =====
-- app/services/evidence.py: a document is hashed, signed, timestamped, logged and archived.

pub mod Trace
pub mod Timestamps
pub mod Sealing
pub mod Sealed
use ekyc.Prelude.{
  ℕ, String, concat, Bool, true, false, Option, none, some, List, [], ◌∷◌, map, take, if◌then◌else◌,
  str_eq, or_else,
}
use ekyc.Json.{Json, Fields, dict, int, str, bool}
use ekyc.Enums.{AuditEventType, ArtifactKind}
use ekyc.Models.{KycSession, SignedDocument, Artifact, Consent, AuditEvent}
use ekyc.Env.{Env, Bytes}
use ekyc.Exec.{Result, ok, err, value_error, Exec, pure, lift, or_raise, draw, utcnow, ◌>>=◌, ◌>>◌}
use ekyc.Audit.{NewEvent, system_event, record_event, optional_str}
use ekyc.Archive.{store_artifact}
use ekyc.Otp.Text.{chars, text}
use ekyc.Signatures
use ekyc.Signatures.{Signature, b64}
use ekyc.Store.{insert_signed}
use ekyc.Tsa.Authorities.{TimestampToken, timestamp}

-- `str` of a Boolean
abbrev pub bool_text : Bool → String
bool_text true = "True"
bool_text false = "False"

-- The trust service of the sealing: the session's, or the one that the caller forces.
unfoldable pub tsa_policy_of : KycSession → Option Bool → String
tsa_policy_of s none = s.tsa_policy
tsa_policy_of s (some qualified) = if qualified then "qualified" else "internal"

-- An event about a document.
unfoldable pub sealing_event : KycSession → AuditEventType → Fields → String → NewEvent
sealing_event s type payload hash = record (system_event s.tenant_id s.id type payload) {
  document_hash = some hash;
}

abbrev pub consent_accepted : Option Consent → String
consent_accepted none = ""
consent_accepted (some c) = bool_text c.accepted

abbrev pub consent_policy : Option Consent → String
consent_policy none = ""
consent_policy (some c) = c.policy_version

abbrev pub slashed : String × String → String × String
slashed (key, value) = (concat "/" key, value)

module _ (env : Env) where
  abbrev pub consent_at : Option Consent → String
  consent_at none = ""
  consent_at (some c) = env.isoformat c.at

  -- The proof elements that are written into the file.
  unfoldable pub proof_elements :
      KycSession → Option String → String → Signature → TimestampToken → List (String × String)
  proof_elements s reference digest signature token =
      ("KycSessionId", s.id)
      ∷ ("Jurisdiction", s.jurisdiction)
      ∷ ("DocumentReference", or_else reference "")
      ∷ ("ConsentGiven", consent_accepted s.consent)
      ∷ ("ConsentAt", consent_at s.consent)
      ∷ ("ConsentPolicyVersion", consent_policy s.consent)
      ∷ ("DocumentSha256", digest)
      ∷ ("Signature", b64 env signature)
      ∷ ("SignatureAlgorithm", signature.algorithm)
      ∷ ("SignatureProvider", signature.provider)
      ∷ ("CertificateFingerprint", or_else signature.certificate_fingerprint "")
      ∷ ("TimestampAuthority", token.authority)
      ∷ ("TimestampProvider", token.provider)
      ∷ ("TimestampedAt", token.issued_at)
      ∷ ("TimestampQualified", bool_text token.qualified)
      ∷ []

  -- `_embed_evidence`
  unfoldable pub embed_evidence : Bytes → List (String × String) → Exec Bytes
  embed_evidence pdf evidence =
      or_raise (env.pdf_with_metadata pdf (map slashed evidence)) value_error

  abbrev pub archive :
      KycSession
      → ArtifactKind
      → (filename : String) → Bytes
      → (content_type : String) → Exec Artifact
  archive s kind filename plain content_type =
      store_artifact env s.tenant_id (some s.id) kind filename plain content_type
        (some s.vault_profile)

  abbrev pub log : KycSession → AuditEventType → List (String × Json) → String → Exec AuditEvent
  log s type payload hash = record_event env (sealing_event s type (dict payload) hash)

  unfoldable pub new_signed :
      KycSession
      → Option String
      → (source sealed stamp : Artifact) → Signature
      → TimestampToken
      → ℕ
      → ℕ
      → SignedDocument
  new_signed s reference source sealed stamp signature token id now = record {
    id = id;
    tenant_id = s.tenant_id;
    session_id = s.id;
    document_reference = reference;
    source_artifact_id = source.id;
    signed_artifact_id = sealed.id;
    sha256 = source.sha256;
    signature = b64 env signature;
    signature_algorithm = signature.algorithm;
    certificate_fingerprint = signature.certificate_fingerprint;
    timestamp_authority = some token.authority;
    timestamp_token_artifact_id = some stamp.id;
    timestamped_at = some now;
    timestamp_details = record {
      qualified = token.qualified;
      provider = token.provider;
      issued_at = token.issued_at;
    };
    created_at = now;
  }

  unfoldable pub seal_document :
      KycSession
      → Bytes
      → (document_reference : Option String) → (filename : String)
      → (qualified_timestamp : Option Bool) → Exec SignedDocument
  seal_document s pdf reference filename qualified = do
    source ← archive s ArtifactKind.contract filename pdf "application/pdf"
    log s AuditEventType.contract_generated
        (("artifact_id", int source.id) ∷ ("reference", optional_str reference) ∷ []) source.sha256
    let digest = source.sha256
    log s AuditEventType.hash_generated (("algorithm", str "SHA-256") ∷ []) digest
    plain ← or_raise (env.fromhex digest) value_error
    signature ← lift (Signatures.sign env plain s.signature_level)
    log s AuditEventType.document_signed
        (("algorithm", str signature.algorithm)
          ∷ ("certificate_fingerprint", optional_str signature.certificate_fingerprint)
          ∷ ("provider", str signature.provider)
          ∷ ("signature_level", str s.signature_level)
          ∷ [])
        digest
    token ← timestamp env digest (tsa_policy_of s qualified)
    stamp ←
        archive s ArtifactKind.timestamp_token (concat (text (take 16 (chars digest))) ".tsr")
          token.token "application/timestamp-reply"
    log s AuditEventType.timestamped
        (("authority", str token.authority)
          ∷ ("provider", str token.provider)
          ∷ ("qualified", bool token.qualified)
          ∷ ("issued_at", str token.issued_at)
          ∷ [])
        digest
    sealed_bytes ← embed_evidence pdf (proof_elements s reference digest signature token)
    sealed ←
        archive s ArtifactKind.signed_contract (concat "signed_" filename) sealed_bytes
          "application/pdf"
    log s AuditEventType.document_archived
        (("artifact_id", int sealed.id) ∷ ("storage_key", str sealed.storage_key) ∷ [])
        sealed.sha256
    now ← utcnow
    id ← draw
    let signed = new_signed s reference source sealed stamp signature token id now
    insert_signed signed
    pure signed

  unfoldable pub verify_integrity : Bytes → String → Bool
  verify_integrity pdf expected = str_eq (env.sha256_bytes pdf) expected
