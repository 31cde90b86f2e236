-- ===== src/Client/Calls.antt =====
-- clients/ekyc/client.py: the calls about sessions and documents.
use ekyc.Prelude.{
  String, concat, Bool, Option, none, some, [], ◌∷◌, leb, if◌then◌else◌, str_eq, or_else, lookup,
}
use ekyc.Json.{Json, Fields, end, field, obj, dict, str}
use ekyc.Env.{Bytes}
use ekyc.Orchestrator.{truthy}
use ekyc.Client.{
  Api, Client, Call, Reply, done, failed, ekyc_error, then_call, Response, Download,
  DocumentArtifact, send, answered, authorized, access_token,
}

module _ (api : Api) where
  abbrev pub metadata_entry : Option Fields → Fields → Fields
  metadata_entry none rest = rest
  metadata_entry (some end) rest = rest
  metadata_entry (some (field k v metadata)) rest = field "metadata" (obj (field k v metadata)) rest

  abbrev pub jurisdiction_entry : Option String → Fields
  jurisdiction_entry none = end
  jurisdiction_entry (some jurisdiction) = field "jurisdiction" (str jurisdiction) end

  unfoldable pub create_session :
      (customer_reference flow : String) → Option Fields → Option String → Call Fields
  create_session customer_reference flow metadata jurisdiction =
      authorized api "Session creation failed" "POST" "/v1/kyc/sessions" (
        some (
          obj (
            field "customer_reference" (str customer_reference) (
              field "flow" (str flow)
                (metadata_entry metadata (jurisdiction_entry (truthy jurisdiction)))))))

  unfoldable pub verify_document : String → Call Fields
  verify_document sha256 c =
      answered api "Document verification failed"
        (send api "GET" (concat "/v1/verify/" sha256) none none c)

  unfoldable pub get_audit_export : String → Call Fields
  get_audit_export sid =
      authorized api "Audit export failed" "GET" (concat "/v1/kyc/sessions/" (concat sid "/audit"))
        none

  abbrev pub sealing_body : String → Option String → Fields → Option Bytes → Json
  sealing_body reference title fields (some pdf) =
      obj
        (dict (("document_reference", str reference) ∷ ("pdf_base64", str (api.b64_text pdf)) ∷ []))
  sealing_body reference title fields none = obj (
      dict (
        ("document_reference", str reference)
        ∷ ("title", str (or_else (truthy title) reference))
        ∷ ("fields", obj fields)
        ∷ []))

  unfoldable pub seal_document :
      String → (document_reference : String) → Option String → Fields → Option Bytes → Call Fields
  seal_document sid reference title fields pdf =
      authorized api "Document sealing failed" "POST"
        (concat "/v1/kyc/sessions/" (concat sid "/documents"))
        (some (sealing_body reference title fields pdf))

  -- `(qualified.lower() == "true") if qualified else None`
  abbrev pub qualified_of : Option String → Option Bool
  qualified_of none = none
  qualified_of (some text) = if str_eq text "" then none else some (str_eq (api.lower text) "true")

  -- `_artifact`, less the file name of the content disposition.
  unfoldable pub artifact : Download → DocumentArtifact
  artifact d = record {
    content = d.content;
    sha256 = lookup "X-EKYC-Document-Sha256" d.headers;
    signature_algorithm = lookup "X-EKYC-Signature-Algorithm" d.headers;
    timestamp_authority = truthy (lookup "X-EKYC-Timestamp-Authority" d.headers);
    timestamp_qualified = qualified_of (lookup "X-EKYC-Timestamp-Qualified" d.headers);
  }

  abbrev pub downloaded : String → Response × Client → Reply DocumentArtifact × Client
  downloaded message (response, c) =
      if leb 400 response.status_code
      then (
        failed (
            ekyc_error (
              concat message (
                concat ": "
                  (concat (api.str_of response.status_code) (concat " " response.text))))),
        c,
      )
      else (done (artifact response.download), c)

  abbrev pub fetch : String → String → Call DocumentArtifact
  fetch message path c =
      then_call (access_token api c) (λ token c'.
        downloaded message (send api "GET" path none (some (concat "Bearer " token)) c'))

  unfoldable pub download_signed_document : String → String → Call DocumentArtifact
  download_signed_document sid signed_document_id =
      fetch "Document download failed"
        (concat "/v1/kyc/sessions/" (concat sid (concat "/documents/" signed_document_id)))

  unfoldable pub download_certificate : String → Call DocumentArtifact
  download_certificate sid =
      fetch "Certificate download failed" (concat "/v1/kyc/sessions/" (concat sid "/certificate"))
