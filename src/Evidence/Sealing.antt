-- ===== src/Evidence/Sealing.antt =====
-- app/services/evidence.py, `seal_document`: what it adds to the tables, and that it returns.
use ekyc.Prelude.{Bool, String, ◌≡◌, refl, ap, Option, none, some, List, [], ◌∷◌, ◌++◌, map}
use ekyc.Enums.{AuditEventType, ArtifactKind, audit_event_type_str}
use ekyc.Models.{KycSession, AuditEvent, Artifact, SignedDocument}
use ekyc.Env.{Env, Bytes}
use ekyc.Exec.{Db, Exn, Result, ok, err, modify, draw}
use ekyc.Exec.Keeps.{Keeps}
use ekyc.Exec.Keeps.{Keeps}
use ekyc.Exec.Triple.{Triple-obtain, Triple, Triple-bind, Triple-pure, Triple-lift, Triple-or_raise}
use ekyc.Signatures
use ekyc.Signatures.{Signature, b64, resolve_signer, resolved, platform_signature}
use ekyc.Store.{insert_signed}
use ekyc.Tsa.Authorities.{TimestampToken}
use ekyc.Evidence.{
  seal_document, tsa_policy_of, sealing_event, embed_evidence, slashed, proof_elements, new_signed,
}
use ekyc.Evidence.Timestamps.{timestamp-Triple}
use ekyc.Evidence.Trace.{
  others, Added, Added-Drawn, Failing, Drawn, draw-Triple, utcnow-Triple, Label, label, IsStored,
  record_event-Triple, store_artifact-Triple,
}

-- The signature of a row is the platform's, over the bytes that its digest shows.
abbrev pub IsSigned : Env → SignedDocument → Type 0
IsSigned env d =
    (plain : Bytes) × (env.fromhex d.sha256 ≡ some plain)
    × (d.signature ≡ env.b64_text (env.rsa_sign plain))

module _ {A : Type 0} where
  resolved-ok : (r : Result (Unit {0})) (a : A) {b : A} → resolved r a ≡ ok b → b ≡ a
  resolved-ok (ok u) a e = cc
  resolved-ok (err x) a e = cc

  resolved-err : (r : Result (Unit {0})) (a : A) {x : Exn} → resolved r a ≡ err x → r ≡ err x
  resolved-err (ok u) a e = cc
  resolved-err (err y) a e = cc

pub sign-ok :
    (env : Env) (s : KycSession) (plain : Bytes) (signature : Signature)
    → Signatures.sign env plain s.signature_level ≡ ok signature
    → signature ≡ platform_signature env plain
unfolding Signatures.sign
sign-ok env s plain signature e = resolved-ok (resolve_signer s.signature_level) _ e

module _ (env : Env) (s : KycSession) (pdf : Bytes) where
  abbrev pub digest : String
  digest = env.sha256_bytes pdf

  abbrev pub said : AuditEventType → String → Label
  said type hash = (s.id, audit_event_type_str type, some hash)

  -- The events of a sealing, in their order; `archived` is the digest of the sealed file.
  abbrev pub sealing_events : String → List Label
  sealing_events archived =
      said AuditEventType.contract_generated digest
      ∷ said AuditEventType.hash_generated digest
      ∷ said AuditEventType.document_signed digest
      ∷ said AuditEventType.timestamped digest
      ∷ said AuditEventType.document_archived archived
      ∷ []

  -- The row `d` and what stands in the tables for it, over those of `start`.
  pub record IsSealed (reference : Option String) (start : Db) (d : SignedDocument) (db : Db)
      : Type 0 where
    pub source : Artifact
    pub stamp : Artifact
    pub sealed : Artifact
    pub added : List AuditEvent
    pub token : TimestampToken
    pub embedded : Bytes
    pub events : db.events ≡ start.events ++ added
    pub labels : map label added ≡ sealing_events sealed.sha256
    pub artifacts : db.artifacts ≡ start.artifacts ++ (source ∷ stamp ∷ sealed ∷ [])
    pub source_stored : IsStored env s ArtifactKind.contract pdf source
    pub sealed_stored : IsStored env s ArtifactKind.signed_contract embedded sealed
    pub stamp_stored : IsStored env s ArtifactKind.timestamp_token token.token stamp
    pub carries :
        (signature : Signature) × (d.signature ≡ b64 env signature)
        × (env.pdf_with_metadata pdf
              (map slashed (proof_elements env s d.document_reference d.sha256 signature token))
            ≡ some embedded)
    pub signed : db.signed_documents ≡ start.signed_documents ++ d ∷ []
    pub sessions : db.sessions ≡ start.sessions
    pub rest : others db ≡ others start
    pub of_session : d.session_id ≡ s.id
    pub of_reference : d.document_reference ≡ reference
    pub of_digest : d.sha256 ≡ digest
    pub of_source : d.source_artifact_id ≡ source.id
    pub of_artifact : d.signed_artifact_id ≡ sealed.id
    pub of_token : d.timestamp_token_artifact_id ≡ some stamp.id
    pub is_signed : IsSigned env d

module _ (env : Env) (E : Type 0) (s : KycSession) (pdf : Bytes) (qualified : Option Bool)
    (failing : Failing E env s pdf (tsa_policy_of s qualified)) (start : Db) where
  signed-Triple :
      (es : List AuditEvent) (stored : List Artifact) (d : SignedDocument)
      → Triple E (Added start es stored) (insert_signed d) (λ u db.
        (db.events ≡ start.events ++ es)
        × (db.artifacts ≡ start.artifacts ++ stored)
        × (db.signed_documents ≡ start.signed_documents ++ d ∷ [])
        × (db.sessions ≡ start.sessions)
        × (others db ≡ others start))
  unfolding insert_signed modify
  signed-Triple es stored d = record {
    at =
        λ db h. (h.events, h.artifacts, ap (λ rows. rows ++ d ∷ []) h.signed, h.sessions, h.others);
  }

  sign-err :
      (plain : Bytes) (x : Exn)
      → Signatures.sign env plain s.signature_level ≡ err x
      → resolve_signer s.signature_level ≡ err x
  unfolding Signatures.sign
  sign-err plain x e = resolved-err (resolve_signer s.signature_level) _ e

  drawn-Keeps : {P : Db → Type 0} → Drawn P → Keeps P draw
  unfolding draw
  drawn-Keeps drawn = record { at = λ db h. drawn db _ h }

  -- The digest of the source is that of the document.
  hex-failing :
      (source : Artifact)
      → IsStored env s ArtifactKind.contract pdf source
      → env.fromhex source.sha256 ≡ none
      → E
  hex-failing source stored e = failing.hex pdf (rw stored.1 at e)

  embed-Triple :
      {P : Db → Type 0} (entries : List (String × String))
      → Triple E P
          (embed_evidence env pdf entries)
          (λ b db. P db × (env.pdf_with_metadata pdf (map slashed entries) ≡ some b))
  unfolding embed_evidence
  embed-Triple entries = Triple-or_raise _ _ (failing.embedded _)

  pub seal_document-Triple :
      (reference : Option String) (filename : String)
      → Triple E
          (Added start [] [])
          (seal_document env s pdf reference filename qualified)
          (λ d. IsSealed env s pdf reference start d)
  unfolding seal_document sealing_event new_signed
  seal_document-Triple reference filename =
      let store = store_artifact-Triple env s _ failing start in
      let event = record_event-Triple env start in
      Triple-obtain _ _ (store [] [] _ _ _ _) λ source is_source.
        Triple-obtain _ _ (event _ _ _) λ e1 l1. Triple-obtain _ _ (event _ _ _) λ e2 l2.
          Triple-obtain _ _ (Triple-or_raise _ _ (hex-failing source is_source)) λ plain read.
            Triple-obtain _ _ (Triple-lift _ λ x e. failing.signer x (sign-err plain x e))
              λ signature made. Triple-obtain _ _ (event _ _ _) λ e3 l3.
                Triple-bind _ _
                  (timestamp-Triple env _ _ (drawn-Keeps (Added-Drawn start _ _)) failing.authority)
                  λ token. Triple-obtain _ _ (store _ _ _ _ _ _) λ stamp is_stamp.
                    Triple-obtain _ _ (event _ _ _) λ e4 l4.
                      Triple-obtain _ _ (embed-Triple _) λ embedded carried.
                        Triple-obtain _ _ (store _ _ _ _ _ _) λ sealed is_sealed.
                          Triple-obtain _ _ (event _ _ _) λ e5 l5.
                            Triple-bind _ _ utcnow-Triple λ now.
                              Triple-bind _ _ (draw-Triple (Added-Drawn start _ _)) λ id.
                                Triple-bind _ _ (signed-Triple _ _ _) λ u. Triple-pure _ λ db h.
                                  (record {
                                    source = source;
                                    stamp = stamp;
                                    sealed = sealed;
                                    added = e1 ∷ e2 ∷ e3 ∷ e4 ∷ e5 ∷ [];
                                    token = token;
                                    embedded = embedded;
                                    events = h.0;
                                    labels = rw (l1, l2, l3, l4, l5, is_source.1) refl;
                                    artifacts = h.1;
                                    source_stored = is_source;
                                    sealed_stored = is_sealed;
                                    stamp_stored = is_stamp;
                                    carries = (signature, refl, carried);
                                    signed = h.2;
                                    sessions = h.3;
                                    rest = h.4;
                                    of_session = refl;
                                    of_reference = refl;
                                    of_digest = is_source.1;
                                    of_source = refl;
                                    of_artifact = refl;
                                    of_token = refl;
                                    is_signed = (
                                      plain,
                                      read,
                                      ap (b64 env) (sign-ok env s plain signature made),
                                    );
                                  })
