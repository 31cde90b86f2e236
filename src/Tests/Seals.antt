-- ===== src/Tests/Seals.antt =====
-- Sealed documents at concrete inputs.
use ekyc.Prelude.{
  map, Option, length, ◌==◌, if◌then◌else◌, str_eq, ◌+◌, ◌≡◌, refl, sym, append-nil, String, none,
  some, List, [], ◌∷◌, ◌++◌, lookup, All,
}
use ekyc.Models.{AuditEvent, SignedDocument}
use ekyc.Env.{Env, Bytes}
use ekyc.Exec.{Db, Exn, ok, draw, utcnow, transaction, ◌>>=◌}
use ekyc.Vault.{seal, header, data_key, open_blob}
use ekyc.Storage.{get_vault, build_key}
use ekyc.Archive.{store_artifact, read_artifact}
use ekyc.Audit.{record_event, sealed_event, verify_chain, list_events}
use ekyc.Signatures
use ekyc.Store.{modify_artifacts, insert_signed}
use ekyc.Tsa.Authorities.{resolve_policy, providers, timestamp, internal_timestamp}
use ekyc.Evidence.{seal_document, new_signed, tsa_policy_of, embed_evidence}
use ekyc.Evidence.Trace.{Failing}
use ekyc.Evidence.Sealing.{IsSealed, IsSigned}
use ekyc.Evidence.Sealed.{seal_document-IsSealed, seal_document-returns}
use ekyc.Api.Documents.{
  certificate_of, FileReply, SignedResponse, ContractRequest, kyc_certificate, seal_contract,
}
use ekyc.Api.Certificates.{SameTables, kyc_certificate-once, kyc_certificate-seal_contract}
use ekyc.Retention.{purge_expired_sessions}
use ekyc.Tsa.Verify.{bytes_eq}
use ekyc.Api.Proof.{verify_document}
use ekyc.Frame.Anchors.{Lived, born, purge, pause, rows-Lived}
use ekyc.Frame.Anchors.Logs.{bare, events-Lived}
use ekyc.Frame.Anchors.Proofs.{ProofLaws, ReadOr, IsProven, verify_document-Lived}
use ekyc.Client.{Api}
use ekyc.Client.Calls.{artifact}
use ekyc.Client.Certificates.{received, artifact_of, artifact-kyc_certificate}
use ekyc.Tests.Fixtures.{env, tenant, open_session, verified_session, empty_db}

abbrev file : Bytes
file = 7 ∷ 8 ∷ 9 ∷ []

-- A library that reads files that begin with 7, and no others.
abbrev with_entries : Bytes → List (String × String) → Option Bytes
with_entries [] entries = none
with_entries (b ∷ rest) entries = if b == 7 then some (b ∷ (rest ++ length entries ∷ [])) else none

abbrev readable : Env
readable = record env { pdf_with_metadata = with_entries }

-- Every step of the sealing succeeds.
succeeds : Failing ⊥ readable open_session file (tsa_policy_of open_session none)
unfolding get_vault header data_key resolve_policy providers tsa_policy_of
succeeds = record {
  vault = λ e h. cc;
  version = λ e h. cc;
  key = λ e h. cc;
  put = λ n backend key blob h. cc;
  hex = λ plain h. cc;
  signer = λ e h. cc;
  authority = λ e h. cc;
  embedded = λ entries h. cc;
}

seal_document-returns_example :
    (d : SignedDocument) × ((seal_document readable open_session file
        (some "R1")
        "a.pdf"
        none
        empty_db).0
      ≡ ok d)
    × IsSealed readable open_session file
        (some "R1")
        empty_db
        d
        (seal_document readable open_session file (some "R1") "a.pdf" none empty_db).1
seal_document-returns_example =
    seal_document-returns readable open_session file (some "R1") "a.pdf" none empty_db succeeds

-- The row that is returned, whatever the witness above names.
made :
    (d : SignedDocument) × ((seal_document env open_session file
        (some "R1")
        "a.pdf"
        none
        empty_db).0
      ≡ ok d)
unfolding seal_document store_artifact seal header data_key get_vault build_key record_event
    sealed_event Signatures.sign timestamp internal_timestamp resolve_policy providers
    embed_evidence modify_artifacts insert_signed utcnow draw tsa_policy_of ◌>>=◌
made = (_, refl)

seal_document-IsSealed_example :
    IsSealed env open_session file
      (some "R1")
      empty_db
      made.0
      (seal_document env open_session file (some "R1") "a.pdf" none empty_db).1
seal_document-IsSealed_example =
    seal_document-IsSealed env open_session file (some "R1") "a.pdf" none empty_db made.1

abbrev certified_db : Db
certified_db = (kyc_certificate env open_session tenant empty_db).1

certified : (reply : FileReply) × ((kyc_certificate env open_session tenant empty_db).0 ≡ ok reply)
unfolding new_signed kyc_certificate transaction verify_chain list_events read_artifact open_blob
    seal_document store_artifact seal header data_key get_vault build_key record_event sealed_event
    Signatures.sign timestamp internal_timestamp resolve_policy providers embed_evidence
    modify_artifacts insert_signed utcnow draw tsa_policy_of ◌>>=◌
certified = (_, refl)

kyc_certificate-once_example :
    SameTables certified_db (kyc_certificate env open_session tenant certified_db).1
kyc_certificate-once_example =
    kyc_certificate-once env open_session tenant empty_db certified_db [] certified.1
      (sym (append-nil certified_db.signed_documents))

abbrev reader : Api
reader = record {
  request = λ n now method path body authorization. record {
    status_code = 404;
    text = "";
    json = none;
    download = record { content = []; headers = [] };
  };
  latency = λ n. 0;
  int_of = λ v. none;
  text_of = λ v. none;
  b64_text = λ plain. "";
  str_of = λ n. "404";
  lower = λ s. if str_eq s "True" then "true" else "false";
}

artifact-kyc_certificate_example :
    (d : SignedDocument) × (certificate_of "s1" certified_db.signed_documents ≡ some d)
    × (artifact reader (received certified.0) ≡ artifact_of d certified.0.content)
artifact-kyc_certificate_example =
    artifact-kyc_certificate reader refl refl env open_session tenant empty_db certified.1

-- A tenant's own file under the reference of the certificate.
abbrev claim : ContractRequest
claim = record {
  document_reference = some "KYC_CERTIFICATE";
  title = "Contrat";
  fields = [];
  pdf_base64 = some "AQI=";
}

abbrev claimed_db : Db
claimed_db = (seal_contract env open_session tenant claim empty_db).1

claimed :
    (response : SignedResponse) × ((seal_contract env open_session tenant claim empty_db).0
      ≡ ok response)
unfolding seal_contract transaction seal_document store_artifact seal header data_key get_vault
    build_key record_event sealed_event Signatures.sign timestamp internal_timestamp resolve_policy
    providers embed_evidence modify_artifacts insert_signed utcnow draw tsa_policy_of ◌>>=◌
claimed = (_, refl)

claimed_answer :
    (reply : FileReply) × ((kyc_certificate env open_session tenant claimed_db).0 ≡ ok reply)
unfolding new_signed kyc_certificate read_artifact open_blob seal_contract transaction seal_document
    store_artifact seal header data_key get_vault build_key record_event sealed_event
    Signatures.sign timestamp internal_timestamp resolve_policy providers embed_evidence
    modify_artifacts insert_signed utcnow draw tsa_policy_of ◌>>=◌
claimed_answer = (_, refl)

kyc_certificate-seal_contract_example :
    lookup "X-EKYC-Document-Sha256" claimed_answer.0.headers ≡ some (env.sha256_bytes (1 ∷ 2 ∷ []))
kyc_certificate-seal_contract_example =
    kyc_certificate-seal_contract env open_session tenant claim {encoded = "AQI="}
      {pdf = 1 ∷ 2 ∷ []} refl refl empty_db claimed_db refl refl claimed.1 refl claimed_answer.1

-- A key with one signature.
abbrev proving : Env
proving = record env {
  rsa_sign = λ plain. 1 ∷ [];
  rsa_verify = λ plain signature. bytes_eq signature (1 ∷ []);
}

abbrev hide : Exn → String
hide e = "error"

proof_laws : ProofLaws proving
proof_laws = record { verifies = λ plain. refl; decodes = λ plain. refl; lower = λ plain. refl }

abbrev closed_db : Db
closed_db = record empty_db { sessions = verified_session ∷ [] }

abbrev proven_db : Db
proven_db = (seal_document proving verified_session file (some "R1") "a.pdf" none closed_db).1

proven_row :
    (d : SignedDocument) × ((seal_document proving verified_session file
        (some "R1")
        "a.pdf"
        none
        closed_db).0
      ≡ ok d)
unfolding seal_document store_artifact seal header data_key get_vault build_key record_event
    sealed_event Signatures.sign timestamp internal_timestamp resolve_policy providers
    embed_evidence modify_artifacts insert_signed utcnow draw tsa_policy_of ◌>>=◌
proven_row = (_, refl)

-- The session is purged long after.
abbrev purged_later : Db
purged_later =
    (purge_expired_sessions proving 10 (record proven_db { now = proven_db.now + 400000000 })).1

lived : Lived proving hide proven_db purged_later
lived = purge (pause born 400000000) 10

verify_document-Lived_example :
    ReadOr proving
      (IsProven (proving.sha256_bytes file))
      purged_later
      (verify_document proving (proving.sha256_bytes file) purged_later).0
verify_document-Lived_example =
    verify_document-Lived proving proof_laws hide verified_session file (some "R1") "a.pdf" none
      closed_db tt proven_row.1 lived

rows-Lived_example :
    (added : List SignedDocument) × (purged_later.signed_documents
      ≡ proven_db.signed_documents ++ added)
    × All (IsSigned proving) added
rows-Lived_example = rows-Lived proving hide lived

events-Lived_example :
    (added : List AuditEvent) × (map bare purged_later.events
      ≡ map bare proven_db.events ++ map bare added)
events-Lived_example = events-Lived proving hide lived
