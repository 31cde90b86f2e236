-- ===== src/Frame/DocumentOps.antt =====
-- The archive, the sealing of documents and the calls about them under what the elementary writes keep.
use ekyc.Prelude.{ap, ℕ, String, Bool, Option, none, some, List}
use ekyc.Enums.{ArtifactKind}
use ekyc.Models.{KycSession, Tenant, Artifact, SignedDocument}
use ekyc.Env.{Env, Bytes}
use ekyc.Exec.{Db, draw}
use ekyc.Exec.Keeps.{
  Keeps, Keeps-obtain, or_raise-some, lift-ok, Keeps-bind, Keeps-lift, Keeps-pure, Keeps-if,
  Keeps-raise, Keeps-gets, Keeps-transaction, Rollback, keeps_rules,
}
use ekyc.Orchestrator.{truthy}
use ekyc.Audit.{NewEvent, record_event, verify_chain, list_events}
use ekyc.Store.{modify_artifacts, insert_signed}
use ekyc.Vault.{seal}
use ekyc.Archive.{payload_of, store_artifact, read_artifact}
use ekyc.Evidence.{seal_document, embed_evidence, new_signed}
use ekyc.Signatures.{b64}
use ekyc.Evidence.Sealing.{IsSigned, sign-ok}
use ekyc.Evidence.Timestamps.{timestamp-Keeps}
use ekyc.Frame.Operations.{utcnow-Keeps, or_raise-Keeps}
use ekyc.Api.Documents.{
  unless_purged, archived, certificate_or_seal, kyc_certificate, contract_pdf, ContractRequest,
  seal_contract,
}

module _ (env : Env) {P : Db → Type 0} (keeps_draw : Keeps P draw)
    (keeps_artifacts : (f : List Artifact → List Artifact) → Keeps P (modify_artifacts f)) where
  payload_of-Keeps : (tenant_id : String) (plain : Bytes) → Keeps P (payload_of env tenant_id plain)
  unfolding seal
  payload_of-Keeps tenant_id plain =
      Keeps-if _ _ _
        (Keeps-bind _ _ (Keeps-lift _)
          λ head. Keeps-bind _ _ (Keeps-lift _) λ key. Keeps-bind _ _ keeps_draw λ n. Keeps-pure _)
        (Keeps-pure _)

  pub store_artifact-Keeps :
      (tenant_id : String) (session_id : Option String) (kind : ArtifactKind) (filename : String)
      (plain : Bytes) (content_type : String) (profile : Option String)
      → Keeps P (store_artifact env tenant_id session_id kind filename plain content_type profile)
  unfolding store_artifact
  store_artifact-Keeps tenant_id session_id kind filename plain content_type profile =
      Keeps-bind _ _ utcnow-Keeps λ now. Keeps-bind _ _ (payload_of-Keeps _ _) λ payload.
        Keeps-bind _ _ (Keeps-lift _) λ backend. Keeps-bind _ _ keeps_draw λ request.
          Keeps-bind _ _ (search keeps_rules) λ _.
            Keeps-bind _ _ keeps_draw λ id. Keeps-bind _ _ (keeps_artifacts _) λ _. Keeps-pure _

  -- `seal_document`, where the events and the row are kept.
  pub seal_document-Keeps :
      ((n : NewEvent) → Keeps P (record_event env n))
      → ((d : SignedDocument) → IsSigned env d → Keeps P (insert_signed d))
      → (s : KycSession) (pdf : Bytes) (reference : Option String) (filename : String)
        (qualified : Option Bool)
      → Keeps P (seal_document env s pdf reference filename qualified)
  unfolding seal_document embed_evidence new_signed
  seal_document-Keeps keeps_event keeps_signed s pdf reference filename qualified =
      let stored = store_artifact-Keeps s.tenant_id (some s.id) in
      Keeps-bind _ _ (stored _ _ _ _ _) λ source. Keeps-bind _ _ (keeps_event _) λ _.
        Keeps-bind _ _ (keeps_event _) λ _.
          Keeps-obtain _ _ (or_raise-Keeps _ _) (or_raise-some _ _) λ plain read.
            Keeps-obtain _ _ (Keeps-lift _) (lift-ok _) λ signature made.
              Keeps-bind _ _ (keeps_event _) λ _.
                Keeps-bind _ _ (timestamp-Keeps env keeps_draw _ _) λ token.
                  Keeps-bind _ _ (stored _ _ _ _ _) λ stamp. Keeps-bind _ _ (keeps_event _) λ _.
                    Keeps-bind _ _ (or_raise-Keeps _ _) λ embedded.
                      Keeps-bind _ _ (stored _ _ _ _ _) λ sealed.
                        Keeps-bind _ _ (keeps_event _) λ _. Keeps-bind _ _ utcnow-Keeps λ now.
                          Keeps-bind _ _ keeps_draw λ id.
                            Keeps-bind _ _
                              (keeps_signed _
                                (plain, read, ap (b64 env) (sign-ok env s plain signature made)))
                              λ _. Keeps-pure _

module _ (env : Env) {P : Db → Type 0} (keeps_draw : Keeps P draw) (keeps_rollback : Rollback P)
    (keeps_seal : (s : KycSession) (pdf : Bytes) (reference : Option String) (filename : String)
        (qualified : Option Bool)
      → Keeps P (seal_document env s pdf reference filename qualified)) where
  unless_purged-Keeps :
      (d : SignedDocument) (a : Artifact) (at : Option ℕ) → Keeps P (unless_purged d a at)
  unless_purged-Keeps d a none = Keeps-pure a
  unless_purged-Keeps d a (some at) = Keeps-raise _

  archived-Keeps : (missing : String) (d : SignedDocument) → Keeps P (archived env missing d)
  unfolding read_artifact
  archived-Keeps missing d = Keeps-bind _ _ (Keeps-gets _) λ found.
      Keeps-bind _ _ (or_raise-Keeps _ _) λ a.
        Keeps-bind _ _ (unless_purged-Keeps d a a.purged_at) λ kept.
          Keeps-bind _ _ (Keeps-lift _) λ backend.
            Keeps-bind _ _ keeps_draw
              λ request. Keeps-bind _ _ (or_raise-Keeps _ _) λ blob. Keeps-lift _

  certificate_or_seal-Keeps :
      (s : KycSession) (t : Tenant) (found : Option SignedDocument)
      → Keeps P (certificate_or_seal env s t found)
  unfolding verify_chain list_events
  certificate_or_seal-Keeps s t (some d) = Keeps-pure d
  certificate_or_seal-Keeps s t none = Keeps-transaction keeps_rollback _ (
      Keeps-bind _ _ (Keeps-bind _ _ (Keeps-gets _) λ events. Keeps-pure _)
        λ verification. Keeps-bind _ _ utcnow-Keeps λ now. keeps_seal _ _ _ _ _)

  pub kyc_certificate-Keeps : (s : KycSession) (t : Tenant) → Keeps P (kyc_certificate env s t)
  unfolding kyc_certificate
  kyc_certificate-Keeps s t = Keeps-bind _ _ (Keeps-gets _) λ found.
      Keeps-bind _ _ (certificate_or_seal-Keeps s t found)
        λ d. Keeps-bind _ _ (archived-Keeps _ d) λ content. Keeps-pure _

  contract_pdf-Keeps :
      (s : KycSession) (t : Tenant) (request : ContractRequest) (encoded : Option String)
      → Keeps P (contract_pdf env s t request encoded)
  contract_pdf-Keeps s t request none = Keeps-bind _ _ utcnow-Keeps λ now. Keeps-pure _
  contract_pdf-Keeps s t request (some encoded) = or_raise-Keeps _ _

  pub seal_contract-Keeps :
      (s : KycSession) (t : Tenant) (request : ContractRequest)
      → Keeps P (seal_contract env s t request)
  unfolding seal_contract
  seal_contract-Keeps s t request =
      Keeps-bind _ _ (contract_pdf-Keeps s t request (truthy request.pdf_base64)) λ pdf.
        Keeps-bind _ _ (Keeps-transaction keeps_rollback _ (keeps_seal _ _ _ _ _)) λ d. Keeps-pure _
