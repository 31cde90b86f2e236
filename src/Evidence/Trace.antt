-- ===== src/Evidence/Trace.antt =====
-- What the steps of a sealing (app/services/evidence.py, archive.py) add to the tables.
use ekyc.Prelude.{
  ℕ, String, ◌≡◌, refl, ap, ◌∙◌, append_assoc, Bool, true, false, not, Option, none, some, List, [],
  ◌∷◌, ◌++◌,
}
use ekyc.Enums.{ArtifactKind, audit_event_type_str}
use ekyc.Models.{
  KycSession, AuditEvent, Artifact, Tenant, OtpChallenge, Document, BiometricCheck, WebhookDelivery,
}
use ekyc.Env.{Env, Bytes, Backend}
use ekyc.Signatures.{resolve_signer}
use ekyc.Tsa.Authorities.{resolve_policy}
use ekyc.Evidence.{archive}
use ekyc.Exec.{Limiter, Dispatch, Db, Exn, err, draw, modify, utcnow, ◌>>=◌}
use ekyc.Exec.Triple.{
  Triple, Triple-bind, Triple-pure, Triple-lift, Triple-raise_if, Triple-weaken, Triple-if,
}
use ekyc.Audit.{NewEvent, record_event, sealed_event, next_event}
use ekyc.Archive.{payload_of, store_artifact}
use ekyc.Storage.{get_vault}
use ekyc.Store.{modify_artifacts}
use ekyc.Vault.{seal, header, data_key}

-- The tables that a sealing does not write, the limiter and the queue of tasks.
abbrev pub Others : Type 0
Others =
    List Tenant
    × List OtpChallenge
    × List Document
    × List BiometricCheck
    × List WebhookDelivery
    × Limiter
    × List Dispatch

abbrev pub others : Db → Others
others db =
    (db.tenants, db.challenges, db.documents, db.biometrics, db.deliveries, db.limiter, db.queue)

-- The database is `start` with these events and artifacts added.
pub record Added (start : Db) (es : List AuditEvent) (stored : List Artifact) (db : Db)
    : Type 0 where
  pub events : db.events ≡ start.events ++ es
  pub artifacts : db.artifacts ≡ start.artifacts ++ stored
  pub signed : db.signed_documents ≡ start.signed_documents
  pub sessions : db.sessions ≡ start.sessions
  pub others : others db ≡ others start

-- What an event says.
abbrev pub Label : Type 0
Label = String × String × Option String

abbrev pub label : AuditEvent → Label
label e = (e.session_id, e.event_type, e.document_hash)

-- What is claimed, at most, where one of the steps raises: the choice of the vault, the header and the
-- key of a blob, the write of it, the reading of a digest, the signer, the authority, the PDF library.
pub record Failing (E : Type 0) (env : Env) (s : KycSession) (pdf : Bytes) (policy : String)
    : Type 0 where
  pub vault : (e : Exn) → get_vault env (some s.vault_profile) ≡ err e → E
  pub version : (e : Exn) → header env.settings.kek_version ≡ err e → E
  pub key : (e : Exn) → data_key env s.tenant_id env.settings.kek_version ≡ err e → E
  pub put :
      (n : ℕ) (backend : Backend) (key : String) (blob : Bytes)
      → env.storage_put n backend key blob ≡ false
      → E
  pub hex : (plain : Bytes) → env.fromhex (env.sha256_bytes plain) ≡ none → E
  pub signer : (e : Exn) → resolve_signer s.signature_level ≡ err e → E
  pub authority : (e : Exn) → resolve_policy env.settings policy ≡ err e → E
  pub embedded : (entries : List (String × String)) → env.pdf_with_metadata pdf entries ≡ none → E

not-true : (b : Bool) → not b ≡ true → b ≡ false
not-true true e = cc
not-true false e = refl

-- The draws of random values leave a property alone.
abbrev pub Drawn : (Db → Type 0) → Type 0
Drawn P = (db : Db) (n : ℕ) → P db → P (record db { serial = n })

module _ {E : Type 0} {P : Db → Type 0} where
  pub draw-Triple : Drawn P → Triple E P draw (λ n. P)
  unfolding draw
  draw-Triple drawn = record { at = λ db h. drawn db _ h }

  pub utcnow-Triple : Triple E P utcnow (λ now. P)
  unfolding utcnow
  utcnow-Triple = record { at = λ db h. h }

pub Added-Drawn :
    (start : Db) (es : List AuditEvent) (stored : List Artifact) → Drawn (Added start es stored)
Added-Drawn start es stored db n h = record {
  events = h.events;
  artifacts = h.artifacts;
  signed = h.signed;
  sessions = h.sessions;
  others = h.others;
}

module _ (env : Env) {E : Type 0} (start : Db) where
  pub record_event-Triple :
      (es : List AuditEvent) (stored : List Artifact) (n : NewEvent)
      → Triple E (Added start es stored) (record_event env n) (λ e db.
        Added start (es ++ e ∷ []) stored db
        × (label e ≡ (n.session_id, audit_event_type_str n.event_type, n.document_hash)))
  unfolding record_event ◌>>=◌ utcnow sealed_event
  record_event-Triple es stored n = record {
    at = λ db h. (
      record {
        events =
            ap (λ rows. rows ++ next_event env n db ∷ []) h.events
            ∙ append_assoc start.events es (next_event env n db ∷ []);
        artifacts = h.artifacts;
        signed = h.signed;
        sessions = h.sessions;
        others = h.others;
      },
      refl,
    );
  }

  stored-Triple :
      (es : List AuditEvent) (stored : List Artifact) (a : Artifact)
      → Triple E
          (Added start es stored)
          (modify_artifacts (λ rows. rows ++ a ∷ []))
          (λ u. Added start es (stored ++ a ∷ []))
  unfolding modify_artifacts modify
  stored-Triple es stored a = record {
    at = λ db h. record {
      events = h.events;
      artifacts =
          ap (λ rows. rows ++ a ∷ []) h.artifacts ∙ append_assoc start.artifacts stored (a ∷ []);
      signed = h.signed;
      sessions = h.sessions;
      others = h.others;
    };
  }

-- What is stored: one artifact, of the digest of the bytes, not purged.
abbrev pub IsStored : Env → KycSession → ArtifactKind → Bytes → Artifact → Type 0
IsStored env s kind plain a =
    (a.kind ≡ kind)
    × (a.sha256 ≡ env.sha256_bytes plain)
    × (a.session_id ≡ some s.id)
    × (a.purged_at ≡ none)

module _ (env : Env) {E : Type 0} (s : KycSession) {pdf : Bytes} (policy : String)
    (failing : Failing E env s pdf policy) where
  seal-Triple :
      {P : Db → Type 0} (plain : Bytes)
      → Drawn P
      → Triple E P (seal env s.tenant_id plain) (λ blob. P)
  unfolding seal
  seal-Triple plain drawn = Triple-bind _ _ (Triple-lift _ failing.version) λ head.
      Triple-bind _ _ (Triple-lift _ failing.key) λ key.
        Triple-bind _ _ (draw-Triple (λ db n h. ((drawn db n h.0.0, h.0.1), h.1)))
          λ n. Triple-pure _ λ db h. h.0.0

  payload_of-Triple :
      {P : Db → Type 0} (plain : Bytes)
      → Drawn P
      → Triple E P (payload_of env s.tenant_id plain) (λ blob. P)
  payload_of-Triple plain drawn =
      Triple-if _ _ _ (seal-Triple plain drawn) (Triple-pure _ λ db h. h)

  pub store_artifact-Triple :
      (start : Db) (es : List AuditEvent) (stored : List Artifact) (kind : ArtifactKind)
      (filename : String) (plain : Bytes) (content_type : String)
      → Triple E
          (Added start es stored)
          (archive env s kind filename plain content_type)
          (λ a db. Added start es (stored ++ a ∷ []) db × IsStored env s kind plain a)
  unfolding store_artifact
  store_artifact-Triple start es stored kind filename plain content_type =
      let drawn = Added-Drawn start es stored in
      Triple-bind _ _ utcnow-Triple λ now.
        Triple-bind _ _ (payload_of-Triple plain drawn) λ payload.
          Triple-bind _ _
            (Triple-weaken _ (λ db h. h) (Triple-lift _ failing.vault) (λ b db h. h.0))
            λ backend. Triple-bind _ _ (draw-Triple drawn) λ request.
              Triple-bind _ _ (Triple-raise_if _ _ (λ e. failing.put _ _ _ _ (not-true _ e))) λ u.
                Triple-bind _ _ (draw-Triple drawn) λ id.
                  Triple-bind _ _ (stored-Triple env start es stored _)
                    λ u. Triple-pure _ λ db h. (h, (refl, refl, refl, refl))
