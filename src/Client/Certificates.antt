-- ===== src/Client/Certificates.antt =====
-- clients/ekyc/client.py, `_artifact`, on the answers of `kyc_certificate` of app/api/v1/sessions.py.
use ekyc.Prelude.{String, ◌≡◌, refl, ap, ◌∙◌, Bool, true, false, Option, none, some, or_else}
use ekyc.Models.{KycSession, Tenant, SignedDocument}
use ekyc.Env.{Env, Bytes}
use ekyc.Exec.{Db, ok}
use ekyc.Evidence.{bool_text}
use ekyc.Orchestrator.{truthy}
use ekyc.Api.Documents.{FileReply, certificate_of, certificate_reply, kyc_certificate}
use ekyc.Api.Certificates.{kyc_certificate-reply}
use ekyc.Client.{Api, Download, DocumentArtifact}
use ekyc.Client.Calls.{qualified_of, artifact}

-- What the client receives of a file.
abbrev pub received : FileReply → Download
received reply = record { content = reply.content; headers = reply.headers }

-- What a signed document is to the client.
abbrev pub artifact_of : SignedDocument → Bytes → DocumentArtifact
artifact_of d content = record {
  content = content;
  sha256 = some d.sha256;
  signature_algorithm = some d.signature_algorithm;
  timestamp_authority = truthy d.timestamp_authority;
  timestamp_qualified = some d.timestamp_details.qualified;
}

module _ (api : Api) (true_text : api.lower "True" ≡ "true")
    (false_text : api.lower "False" ≡ "false") where
  qualified_of-bool_text : (b : Bool) → qualified_of api (some (bool_text b)) ≡ some b
  qualified_of-bool_text true = rw true_text refl
  qualified_of-bool_text false = rw false_text refl

  authority-kept :
      (authority : Option String) → truthy (some (or_else authority "")) ≡ truthy authority
  authority-kept none = refl
  authority-kept (some a) = refl

  artifact-certificate_reply :
      (env : Env) (s : KycSession) (d : SignedDocument) (content : Bytes)
      → artifact api (received (certificate_reply env s d content)) ≡ artifact_of d content
  unfolding artifact
  artifact-certificate_reply env s d content =
      let shown = received (certificate_reply env s d content) in
      ap (λ authority. record (artifact api shown) { timestamp_authority = authority })
        (authority-kept d.timestamp_authority)
      ∙ ap (λ qualified. record (artifact_of d content) { timestamp_qualified = qualified })
          (qualified_of-bool_text d.timestamp_details.qualified)

  -- What the client makes of an answer of `kyc_certificate` has the bytes that were sent, and the digest, the algorithm,
  -- the timestamp authority and the qualification of the document that is the session's certificate after the call;
  -- `lower` maps the two texts of a Boolean as Python does.
  pub artifact-kyc_certificate :
      (env : Env) (s : KycSession) (t : Tenant) (db : Db) {reply : FileReply}
      → (kyc_certificate env s t db).0 ≡ ok reply
      → (d : SignedDocument) × (certificate_of s.id (kyc_certificate env s t db).1.signed_documents
          ≡ some d)
        × (artifact api (received reply) ≡ artifact_of d reply.content)
  artifact-kyc_certificate env s t db returned =
      let (d, found, (content, same)) = kyc_certificate-reply env s t db returned in
      (d, found, rw same (artifact-certificate_reply env s d content))
