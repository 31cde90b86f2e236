-- ===== src/Api/Documents.antt =====
-- app/api/v1/sessions.py: the result of a session, its certificate and its sealed documents.
use ekyc.Prelude.{
  ℕ, String, concat, Bool, true, false, ◌&&◌, ◌||◌, Option, none, some, List, [], ◌∷◌, ◌++◌, ltb,
  ◌==◌, if◌then◌else◌, str_eq, or_else, map, select, first,
}
use ekyc.Enums.{Step, CheckStatus, check_status_str, step_str, session_status_str}
use ekyc.Models.{KycSession, Tenant, SignedDocument, Artifact}
use ekyc.Env.{Env, Bytes}
use ekyc.Exec.{Exn, http, Exec, pure, raise, gets, or_raise, utcnow, transaction, ◌>>=◌}
use ekyc.Orchestrator.{truthy}
use ekyc.Identity.{find_artifact}
use ekyc.Audit.{Verification, valid, broken, verify_chain}
use ekyc.Archive.{read_artifact}
use ekyc.Kyc.Public.{PublicResult, public_result}
use ekyc.Pdf.{Certificate, Contract, shown, render_kyc_certificate, render_contract}
use ekyc.Evidence.{seal_document, bool_text}

unfoldable pub get_session : KycSession → PublicResult
get_session s = public_result s true

abbrev pub certificate_reference : String
certificate_reference = "KYC_CERTIFICATE"

abbrev pub has_reference : String → Option String → Bool
has_reference reference none = false
has_reference reference (some r) = str_eq r reference

abbrev pub is_certificate : String → SignedDocument → Bool
is_certificate sid d =
    str_eq d.session_id sid && has_reference certificate_reference d.document_reference

abbrev pub newer_of : SignedDocument → Option SignedDocument → SignedDocument
newer_of d none = d
newer_of d (some e) = if ltb e.created_at d.created_at then d else e

-- `order_by(created_at.desc())`, first row; of two of one instant the one added last.
abbrev pub newest : List SignedDocument → Option SignedDocument
newest [] = none
newest (d ∷ rest) = some (newer_of d (newest rest))

abbrev pub certificate_of : String → List SignedDocument → Option SignedDocument
certificate_of sid rows = newest (select (is_certificate sid) rows)

-- `db.get(SignedDocument, id)`
abbrev pub find_signed : ℕ → List SignedDocument → Option SignedDocument
find_signed id = first (λ (d : SignedDocument). d.id == id)

-- `.get("head_hash")`
abbrev pub head_hash_of : Verification → Option String
head_hash_of (valid n head) = head
head_hash_of (broken n sequence) = none

abbrev pub check_items : (Step → Option CheckStatus) → List Step → List (String × String)
check_items checks [] = []
check_items checks (step ∷ rest) = elim (checks step) [
  | none ↦ check_items checks rest
  | some status ↦ (step_str step, check_status_str status) ∷ check_items checks rest
]

-- A file that is returned, with its name and the headers about it.
pub record FileReply : Type 0 where
  pub content : Bytes
  pub filename : String
  pub headers : List (String × String)

abbrev pub gone : SignedDocument → Exn
gone d = http 410 (
    concat "Retention period elapsed — proof anchors remain verifiable at "
      (concat "/v1/verify/" d.sha256))

-- An artifact whose blob is kept.
abbrev pub unless_purged : SignedDocument → Artifact → Option ℕ → Exec Artifact
unless_purged d a none = pure a
unless_purged d a (some at) = raise (gone d)

-- `SignedDocumentResponse`
pub record SignedResponse : Type 0 where
  pub signed_document_id : ℕ
  pub session_id : String
  pub document_reference : Option String
  pub sha256 : String
  pub signature_algorithm : String
  pub certificate_fingerprint : Option String
  pub timestamp_authority : Option String
  pub timestamp_qualified : Bool
  pub timestamped_at : Option ℕ
  pub download_url : String

-- `ContractRequest`; the values of the fields are texts.
pub record ContractRequest : Type 0 where
  pub document_reference : Option String
  pub title : String
  pub fields : List (String × Option String)
  pub pdf_base64 : Option String

module _ (env : Env) where
  -- The blob of an artifact of a signed document, refused where it is missing or purged.
  abbrev pub archived : String → SignedDocument → Exec Bytes
  archived missing d = do
    found ← gets (λ db. find_artifact d.signed_artifact_id db.artifacts)
    a ← or_raise found (http 404 missing)
    kept ← unless_purged d a a.purged_at
    read_artifact env kept

  abbrev pub certificate_content : KycSession → Tenant → Option String → ℕ → Certificate
  certificate_content s tenant head now = record {
    session_id = s.id;
    tenant_name = tenant.name;
    flow = s.flow;
    status = session_status_str s.status;
    identity = or_else (public_result s true).identity [];
    checks = check_items s.checks (env.check_order s.id);
    audit_head_hash = head;
    issued_at = env.isoformat_seconds now;
  }

  -- The certificate is rendered and sealed, and the transaction is committed.
  abbrev pub seal_certificate : KycSession → Tenant → Exec SignedDocument
  seal_certificate s tenant = transaction do
    verification ← verify_chain env s.id
    now ← utcnow
    let pdf =
        render_kyc_certificate env (certificate_content s tenant (head_hash_of verification) now)
    seal_document env s pdf (some certificate_reference) (concat s.id "-certificate.pdf")
        (some (env.settings.tsa_qualified_certificates || str_eq s.tsa_policy "qualified"))

  abbrev pub certificate_or_seal : KycSession → Tenant → Option SignedDocument → Exec SignedDocument
  certificate_or_seal s tenant none = seal_certificate s tenant
  certificate_or_seal s tenant (some d) = pure d

  abbrev pub certificate_reply : KycSession → SignedDocument → Bytes → FileReply
  certificate_reply s d content = record {
    content = content;
    filename = concat s.id "-certificate.pdf";
    headers =
        ("X-EKYC-Document-Sha256", d.sha256)
        ∷ ("X-EKYC-Signature-Algorithm", d.signature_algorithm)
        ∷ ("X-EKYC-Timestamp-Authority", or_else d.timestamp_authority "")
        ∷ ("X-EKYC-Timestamp-Qualified", bool_text d.timestamp_details.qualified)
        ∷ [];
  }

  unfoldable pub kyc_certificate : KycSession → Tenant → Exec FileReply
  kyc_certificate s tenant = do
    found ← gets (λ db. certificate_of s.id db.signed_documents)
    d ← certificate_or_seal s tenant found
    content ← archived "Certificate artifact missing" d
    pure (certificate_reply s d content)

  -- `_signed_response`
  unfoldable pub signed_response : SignedDocument → SignedResponse
  signed_response d = record {
    signed_document_id = d.id;
    session_id = d.session_id;
    document_reference = d.document_reference;
    sha256 = d.sha256;
    signature_algorithm = d.signature_algorithm;
    certificate_fingerprint = d.certificate_fingerprint;
    timestamp_authority = d.timestamp_authority;
    timestamp_qualified = d.timestamp_details.qualified;
    timestamped_at = d.timestamped_at;
    download_url =
        concat "/v1/kyc/sessions/" (concat d.session_id (concat "/documents/" (env.str_of d.id)));
  }

  abbrev pub contract_content : KycSession → Tenant → ContractRequest → ℕ → Contract
  contract_content s tenant request now = record {
    title = request.title;
    session_id = s.id;
    tenant_name = tenant.name;
    body = map shown (or_else (public_result s true).identity []) ++ request.fields;
    issued_at = env.isoformat_seconds now;
  }

  -- The file of the request: its own, or one that is rendered.
  abbrev pub contract_pdf : KycSession → Tenant → ContractRequest → Option String → Exec Bytes
  contract_pdf s tenant request none = do
    now ← utcnow
    pure (render_contract env (contract_content s tenant request now))
  contract_pdf s tenant request (some encoded) =
      or_raise (env.b64_strict encoded) (http 400 "Invalid base64 PDF")

  unfoldable pub seal_contract : KycSession → Tenant → ContractRequest → Exec SignedResponse
  seal_contract s tenant request = do
    pdf ← contract_pdf s tenant request (truthy request.pdf_base64)
    d ← transaction (
        seal_document env s pdf request.document_reference
          (concat (or_else (truthy request.document_reference) "document") ".pdf") none)
    pure (signed_response d)

  abbrev pub owned : KycSession → Option SignedDocument → Exec SignedDocument
  owned s none = raise (http 404 "Signed document not found")
  owned s (some d) =
      if str_eq d.session_id s.id then pure d else raise (http 404 "Signed document not found")

  unfoldable pub download_signed_document : KycSession → ℕ → Exec FileReply
  download_signed_document s id = do
    found ← gets (λ db. find_signed id db.signed_documents)
    d ← owned s found
    content ← archived "Archived document not found" d
    pure (record {
      content = content;
      filename = concat (env.str_of d.id) ".pdf";
      headers = ("X-EKYC-Document-SHA256", d.sha256) ∷ [];
    })
