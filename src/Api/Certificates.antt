-- ===== src/Api/Certificates.antt =====
-- app/api/v1/sessions.py, `kyc_certificate`: one sealing for a session, and what counts as its certificate.
use ekyc.Prelude.{
  concat, or_else, ℕ, String, ◌≡◌, refl, ap, sym, ◌∙◌, true, eq_refl, Option, none, some, List, [],
  ◌∷◌, ◌++◌, Bool-cases, lookup, Option-cases, inl, inr,
}
use ekyc.Models.{KycSession, Tenant, SignedDocument, Artifact}
use ekyc.Env.{Env, Bytes}
use ekyc.Exec.{Db, ok, Exec, pure, draw, transaction, utcnow, ◌>>=◌}
use ekyc.Exec.Keeps.{Keeps, Keeps-bind, Keeps-lift, Keeps-gets, Keeps-pure, Keeps-raise}
use ekyc.Exec.Transaction.{transaction-returned, bind-returned}
use ekyc.Frame.Operations.{or_raise-Keeps}
use ekyc.Orchestrator.{truthy}
use ekyc.Audit.{verify_chain, list_events}
use ekyc.Archive.{read_artifact}
use ekyc.Evidence.{seal_document}
use ekyc.Evidence.Sealing.{IsSealed}
use ekyc.Evidence.Sealed.{seal_document-IsSealed}
use ekyc.Api.Documents.{
  certificate_reference, is_certificate, certificate_of, unless_purged, archived, FileReply,
  seal_certificate, certificate_reply, kyc_certificate, seal_contract, ContractRequest,
  SignedResponse, signed_response,
}

-- The tables that a sealing writes are those of `start`.
pub record SameTables (start db : Db) : Type 0 where
  pub events : db.events ≡ start.events
  pub artifacts : db.artifacts ≡ start.artifacts
  pub signed : db.signed_documents ≡ start.signed_documents

same : (db : Db) → SameTables db db
same db = record { events = refl; artifacts = refl; signed = refl }

module _ {start : Db} where
  draw-Same : Keeps (SameTables start) draw
  unfolding draw
  draw-Same = record {
    at = λ db h. record { events = h.events; artifacts = h.artifacts; signed = h.signed };
  }

  unless_purged-Same :
      (d : SignedDocument) (a : Artifact) (at : Option ℕ)
      → Keeps (SameTables start) (unless_purged d a at)
  unless_purged-Same d a none = Keeps-pure a
  unless_purged-Same d a (some at) = Keeps-raise _

  archived-Same :
      (env : Env) (missing : String) (d : SignedDocument)
      → Keeps (SameTables start) (archived env missing d)
  unfolding read_artifact
  archived-Same env missing d = Keeps-bind _ _ (Keeps-gets _) λ found.
      Keeps-bind _ _ (or_raise-Keeps _ _) λ a.
        Keeps-bind _ _ (unless_purged-Same d a a.purged_at) λ kept.
          Keeps-bind _ _ (Keeps-lift _) λ backend.
            Keeps-bind _ _ draw-Same
              λ request. Keeps-bind _ _ (or_raise-Keeps _ _) λ blob. Keeps-lift _

-- A certificate among the rows is found, whatever rows follow.
certificate_of-more :
    (sid : String) (rows more : List SignedDocument) {d : SignedDocument}
    → certificate_of sid rows ≡ some d
    → (e : SignedDocument) × (certificate_of sid (rows ++ more) ≡ some e)
certificate_of-more sid [] more found = cc
certificate_of-more sid (r ∷ rows) more found = elim (Bool-cases (is_certificate sid r)) [
  | inl is ↦ rw is (_, refl)
  | inr isnt ↦ rw isnt (certificate_of-more sid rows more (rw isnt at found))
]

certificate_of-append :
    (sid : String) (rows more : List SignedDocument) (d : SignedDocument)
    → is_certificate sid d ≡ true
    → (e : SignedDocument) × (certificate_of sid ((rows ++ d ∷ []) ++ more) ≡ some e)
certificate_of-append sid [] more d own = rw own (_, refl)
certificate_of-append sid (r ∷ rows) more d own =
    let rest = certificate_of-append sid rows more d own in
    elim (Bool-cases (is_certificate sid r)) [ inl is ↦ rw is (_, refl) | inr isnt ↦ rw isnt rest ]

certificate_of-new :
    (sid : String) (rows : List SignedDocument) (d : SignedDocument)
    → certificate_of sid rows ≡ none
    → is_certificate sid d ≡ true
    → certificate_of sid (rows ++ d ∷ []) ≡ some d
certificate_of-new sid [] d missing own = rw own refl
certificate_of-new sid (r ∷ rows) d missing own = elim (Bool-cases (is_certificate sid r)) [
  | inl is ↦ let no = rw is at missing in cc
  | inr isnt ↦ rw isnt (certificate_of-new sid rows d (rw isnt at missing) own)
]

ok-injective : {A : Type 0} {a b : A} → ok a ≡ ok b → a ≡ b
ok-injective e = cc

module _ (env : Env) (s : KycSession) (t : Tenant) where
  -- What follows once the row of the certificate is there.
  abbrev answer : SignedDocument → Exec FileReply
  answer d = do
    content ← archived env "Certificate artifact missing" d
    pure (certificate_reply env s d content)

  answer-Same : {start : Db} (d : SignedDocument) → Keeps (SameTables start) (answer d)
  answer-Same d = Keeps-bind _ _ (archived-Same env _ d) λ content. Keeps-pure _

  -- With a certificate among the rows nothing is sealed.
  kyc_certificate-found :
      (db : Db) (d : SignedDocument)
      → certificate_of s.id db.signed_documents ≡ some d
      → kyc_certificate env s t db ≡ answer d db
  unfolding kyc_certificate ◌>>=◌
  kyc_certificate-found db d found = rw found refl

  kyc_certificate-missing :
      (db : Db)
      → certificate_of s.id db.signed_documents ≡ none
      → kyc_certificate env s t db ≡ (seal_certificate env s t >>= answer) db
  unfolding kyc_certificate ◌>>=◌
  kyc_certificate-missing db missing = rw missing refl

  -- What the sealing of a certificate leaves, when it returns.
  seal_certificate-IsSealed :
      (db : Db) {d : SignedDocument}
      → (seal_certificate env s t db).0 ≡ ok d
      → (pdf : Bytes) × IsSealed env s pdf
          (some certificate_reference)
          db
          d
          (seal_certificate env s t db).1
  unfolding verify_chain list_events utcnow ◌>>=◌
  seal_certificate-IsSealed db e =
      let inner = transaction-returned _ db e in
      rw inner (_, seal_document-IsSealed env s _ _ _ _ db (rw inner at e))

  -- The row of a sealed certificate is one.
  IsSealed-is_certificate :
      {pdf : Bytes} {reference : Option String} {start db : Db} {d : SignedDocument}
      → IsSealed env s pdf reference start d db
      → reference ≡ some certificate_reference
      → is_certificate s.id d ≡ true
  IsSealed-is_certificate sealed e =
      rw (sealed.of_session, sealed.of_reference, e, eq_refl s.id) refl

  -- A certificate is among the rows after any call that returned.
  certificate_of-kyc_certificate :
      (db : Db) {reply : FileReply} (more : List SignedDocument)
      → (kyc_certificate env s t db).0 ≡ ok reply
      → (d : SignedDocument) × (certificate_of s.id
            ((kyc_certificate env s t db).1.signed_documents ++ more)
          ≡ some d)
  certificate_of-kyc_certificate db more e =
      elim (Option-cases (certificate_of s.id db.signed_documents)) [
        | inr (d, found) ↦
            let kept = (answer-Same {start = db} d).at db (same db) in
            rw (kyc_certificate-found db d found, kept.signed)
              (certificate_of-more s.id db.signed_documents more found)
        | inl missing ↦
            let (d, sealed, step) =
              bind-returned _ _ db (rw (kyc_certificate-missing db missing) at e) in
            let (pdf, rows) = seal_certificate-IsSealed db sealed in
            let after = (seal_certificate env s t db).1 in
            let kept = (answer-Same {start = after} d).at after (same after) in
            rw (kyc_certificate-missing db missing, step, kept.signed, rows.signed)
              (certificate_of-append s.id db.signed_documents more d
                (IsSealed-is_certificate rows refl))
      ]

  -- A session has its certificate sealed once: after a call of `kyc_certificate` that returned, and while rows of
  -- signed documents are only added, no later call writes an event, an artifact or a signed document, whether it
  -- returns or raises.
  pub kyc_certificate-once :
      (db : Db) {reply : FileReply} (later : Db) (more : List SignedDocument)
      → (kyc_certificate env s t db).0 ≡ ok reply
      → later.signed_documents ≡ (kyc_certificate env s t db).1.signed_documents ++ more
      → SameTables later (kyc_certificate env s t later).1
  kyc_certificate-once db later more returned grown =
      let (d, found) = certificate_of-kyc_certificate db more returned in
      rw (kyc_certificate-found later d (ap (certificate_of s.id) grown ∙ found))
        ((answer-Same {start = later} d).at later (same later))

  -- The answer is about the row that is found.
  answer-reply :
      (db : Db) (d : SignedDocument) {reply : FileReply}
      → (answer d db).0 ≡ ok reply
      → (content : Bytes) × (reply ≡ certificate_reply env s d content)
  unfolding pure
  answer-reply db d {reply} e =
      let (content, done, step) = bind-returned _ _ db e in
      (content, ok-injective (sym (rw step at e)))

  answer-headers :
      (db : Db) (d : SignedDocument) {reply : FileReply}
      → (answer d db).0 ≡ ok reply
      → lookup "X-EKYC-Document-Sha256" reply.headers ≡ some d.sha256
  answer-headers db d e = let (content, same) = answer-reply db d e in rw same refl

  -- What a call that returned answers is about the certificate that the rows then have.
  pub kyc_certificate-reply :
      (db : Db) {reply : FileReply}
      → (kyc_certificate env s t db).0 ≡ ok reply
      → (d : SignedDocument) × (certificate_of s.id (kyc_certificate env s t db).1.signed_documents
          ≡ some d)
        × ((content : Bytes) × (reply ≡ certificate_reply env s d content))
  kyc_certificate-reply db e = elim (Option-cases (certificate_of s.id db.signed_documents)) [
    | inr (d, found) ↦
        let kept = (answer-Same {start = db} d).at db (same db) in
        let step = kyc_certificate-found db d found in
        rw (step, kept.signed) (d, found, answer-reply db d (rw step at e))
    | inl missing ↦
        let shape = kyc_certificate-missing db missing in
        let (d, sealed, step) = bind-returned _ _ db (rw shape at e) in
        let (pdf, rows) = seal_certificate-IsSealed db sealed in
        let after = (seal_certificate env s t db).1 in
        let kept = (answer-Same {start = after} d).at after (same after) in
        let own = IsSealed-is_certificate rows refl in
        rw (shape, step, kept.signed, rows.signed)
          (
            d,
            certificate_of-new s.id db.signed_documents d missing own,
            answer-reply after d (rw (shape, step) at e),
          )
  ]

-- A contract whose file the tenant gives.
module _ (env : Env) (s : KycSession) (t : Tenant) (request : ContractRequest) {encoded : String}
    {pdf : Bytes} (given : truthy request.pdf_base64 ≡ some encoded)
    (decoded : env.b64_strict encoded ≡ some pdf) where
  abbrev sealing : Exec SignedDocument
  sealing = transaction (
      seal_document env s pdf request.document_reference
        (concat (or_else (truthy request.document_reference) "document") ".pdf") none)

  seal_contract-given :
      (db : Db)
      → seal_contract env s t request db ≡ (sealing >>= (λ d. pure (signed_response env d))) db
  unfolding seal_contract pure ◌>>=◌
  seal_contract-given db = rw (given, decoded) refl

  -- What it leaves, when the call returns.
  pub seal_contract-IsSealed :
      (db : Db) {response : SignedResponse}
      → (seal_contract env s t request db).0 ≡ ok response
      → (d : SignedDocument) × IsSealed env s pdf request.document_reference db d
          (seal_contract env s t request db).1
  unfolding pure
  seal_contract-IsSealed db e =
      let (d, sealed, step) = bind-returned sealing _ db (rw (seal_contract-given db) at e) in
      let inner = transaction-returned _ db sealed in
      rw (seal_contract-given db, step, inner)
        (d, seal_document-IsSealed env s pdf _ _ none db (rw inner at sealed))

  -- Where a session has no certificate yet, a contract that the tenant has sealed under the reference
  -- "KYC_CERTIFICATE" becomes its certificate: while no further document is sealed, what `kyc_certificate` returns is
  -- about the digest of the tenant's own file.
  pub kyc_certificate-seal_contract :
      (db : Db) {response : SignedResponse} (later : Db) {reply : FileReply}
      → request.document_reference ≡ some certificate_reference
      → certificate_of s.id db.signed_documents ≡ none
      → (seal_contract env s t request db).0 ≡ ok response
      → later.signed_documents ≡ (seal_contract env s t request db).1.signed_documents
      → (kyc_certificate env s t later).0 ≡ ok reply
      → lookup "X-EKYC-Document-Sha256" reply.headers ≡ some (env.sha256_bytes pdf)
  kyc_certificate-seal_contract db later claimed missing returned kept answered =
      let (d, rows) = seal_contract-IsSealed db returned in
      let own = IsSealed-is_certificate env s t rows claimed in
      let found : certificate_of s.id later.signed_documents ≡ some d =
        rw (kept, rows.signed) (certificate_of-new s.id db.signed_documents d missing own) in
      let step = kyc_certificate-found env s t later d found in
      answer-headers env s t later d (rw step at answered) ∙ ap some rows.of_digest
