-- ===== src/Frame/Anchors/Proofs.antt =====
-- app/api/v1/verify.py: what a third party is told of a sealed document, at any later time.
use ekyc.Prelude.{
  ℕ, String, ◌≡◌, ◌⊎◌, refl, Bool, true, Option, none, some, List, [], ◌∷◌, ◌++◌, All, str_eq,
  eq_iff, Bool-cases, inl, inr,
}
use ekyc.Models.{KycSession, SignedDocument, Artifact}
use ekyc.Env.{Env, Bytes}
use ekyc.Exec.{Db, Exn, Result, ok, err, pure, ◌>>=◌}
use ekyc.Archive.{read_artifact}
use ekyc.Signatures
use ekyc.Tsa.Verify.{verify_token}
use ekyc.Evidence.{seal_document}
use ekyc.Evidence.Sealing.{IsSigned}
use ekyc.Evidence.Sealed.{seal_document-IsSealed}
use ekyc.Identity.{find_artifact}
use ekyc.Api.Proof.{
  Proof, Answer, known, find_sha256, checked_signature, verify_kept, verify_stored,
  verify_timestamp, answer_for, proof_of, verified, verify_document,
}
use ekyc.Exec.Transaction.{Result-cases}
use ekyc.Frame.Anchors.{Lived, rows-Lived}

-- What the code relies on: a signature of the key verifies, base64 decodes a signature that it encoded, and a
-- hexadecimal digest is in lower case.
pub record ProofLaws (env : Env) : Type 0 where
  pub verifies : (plain : Bytes) → env.rsa_verify plain (env.rsa_sign plain) ≡ true
  pub decodes :
      (plain : Bytes)
      → env.b64_lenient (env.b64_text (env.rsa_sign plain)) ≡ some (env.rsa_sign plain)
  pub lower : (plain : Bytes) → env.lower (env.sha256_bytes plain) ≡ env.sha256_bytes plain

-- A row of a digest is found among the rows that are signed, and is signed.
find_sha256-All :
    (env : Env) (digest : String) (d : SignedDocument) (rows more : List SignedDocument)
    → All (IsSigned env) rows
    → IsSigned env d
    → d.sha256 ≡ digest
    → (e : SignedDocument) × (find_sha256 digest ((rows ++ d ∷ []) ++ more) ≡ some e)
      × (e.sha256 ≡ digest)
      × IsSigned env e
find_sha256-All env digest d [] more h own e = (d, rw ((eq_iff d.sha256 digest).1 e) refl, e, own)
find_sha256-All env digest d (r ∷ rows) more h own e = elim (Bool-cases (str_eq r.sha256 digest)) [
  | inl same ↦ (r, rw same refl, (eq_iff r.sha256 digest).0 same, h.0)
  | inr other ↦
      let (x, found, of_digest, signed) = find_sha256-All env digest d rows more h.1 own e in
      (x, rw other found, of_digest, signed)
]

-- The result of an operation that may have failed to read the blob of an artifact that is in the database and is
-- not purged there.
abbrev pub ReadOr : Env → {A : Type 0} → (A → Type 0) → Db → Result A → Type 0
ReadOr env {A = A} P db r =
    ((a : A) × (r ≡ ok a) × P a)
    ⊎ ((id : ℕ) × (a : Artifact) × (e : Exn) × (find_artifact id db.artifacts ≡ some a)
        × (a.purged_at ≡ none)
        × ((read_artifact env a db).0 ≡ err e)
        × (r ≡ err e))

-- A proof of this digest, with a signature that verifies.
pub data IsProven (digest : String) : Answer → Type 0 where
  proven :
      (p : Proof) → p.sha256 ≡ digest → p.signature_verified ≡ some true → IsProven digest (known p)

module _ (env : Env) (laws : ProofLaws env) where
  checked_signature-IsSigned :
      (d : SignedDocument) (plain : Bytes)
      → env.fromhex d.sha256 ≡ some plain
      → IsSigned env d
      → checked_signature env plain (env.b64_lenient d.signature) ≡ some true
  unfolding Signatures.verify
  checked_signature-IsSigned d plain read (own, read', e) =
      let same : own ≡ plain = cc in rw (e, laws.decodes, same, laws.verifies plain) refl

  verify_kept-ReadOr :
      (d : SignedDocument) (id : ℕ) (a : Artifact) (at : Option ℕ) (db : Db)
      → find_artifact id db.artifacts ≡ some a
      → a.purged_at ≡ at
      → ReadOr env (λ t. Unit) db (verify_kept env d a at db).0
  unfolding pure ◌>>=◌
  verify_kept-ReadOr d id a (some at) db here e = inl (_, refl, tt)
  verify_kept-ReadOr d id a none db here e = elim (Result-cases (read_artifact env a db).0) [
    | inl (token, read) ↦ inl (
      verified (verify_token env d.sha256 token (some d.timestamp_details.issued_at)),
      rw read refl,
      tt,
    )
    | inr (x, failed) ↦ inr (id, a, x, here, e, failed, rw failed refl)
  ]

  verify_stored-ReadOr :
      (d : SignedDocument) (id : ℕ) (found : Option Artifact) (db : Db)
      → find_artifact id db.artifacts ≡ found
      → ReadOr env (λ t. Unit) db (verify_stored env d found db).0
  unfolding pure
  verify_stored-ReadOr d id none db here = inl (_, refl, tt)
  verify_stored-ReadOr d id (some a) db here = verify_kept-ReadOr d id a a.purged_at db here refl

  verify_timestamp-ReadOr :
      (d : SignedDocument) (id : Option ℕ) (db : Db)
      → ReadOr env (λ t. Unit) db (verify_timestamp env d id db).0
  unfolding pure ◌>>=◌
  verify_timestamp-ReadOr d none db = inl (_, refl, tt)
  verify_timestamp-ReadOr d (some id) db =
      verify_stored-ReadOr d id (find_artifact id db.artifacts) db refl

  answer_for-IsSigned :
      (asked digest : String) (d : SignedDocument) (db : Db)
      → d.sha256 ≡ digest
      → IsSigned env d
      → ReadOr env (IsProven digest) db (answer_for env asked (some d) db).0
  unfolding pure ◌>>=◌
  answer_for-IsSigned asked digest d db of_digest signed =
      let (plain, read, e) = signed in
      let checked = checked_signature-IsSigned d plain read signed in
      elim (verify_timestamp-ReadOr d d.timestamp_token_artifact_id db) [
        | inl (t, told, u) ↦
            let p = proof_of env d (checked_signature env plain (env.b64_lenient d.signature)) t (
              find_artifact d.signed_artifact_id
                (verify_timestamp env d d.timestamp_token_artifact_id db).1.artifacts) in
            inl (known p, rw (read, told) refl, proven p of_digest checked)
        | inr (id, a, x, here, kept, failed, told) ↦
            inr (id, a, x, here, kept, failed, rw (read, told) refl)
      ]

  -- Whoever asks `verify_document` for the digest of a document that was sealed, at any later time and also after its
  -- session was purged, is told that it is known, with this digest and a signature that verifies; or the call
  -- fails because the blob of an artifact that the database has, not purged, cannot be read. It is never answered "not found".
  -- Before the sealing, each row of `signed_documents` has the platform's signature.
  pub verify_document-Lived :
      (describe : Exn → String) (s : KycSession) (pdf : Bytes) (reference : Option String)
      (filename : String) (qualified : Option Bool) (db : Db) {d : SignedDocument} {later : Db}
      → All (IsSigned env) db.signed_documents
      → (seal_document env s pdf reference filename qualified db).0 ≡ ok d
      → Lived env describe (seal_document env s pdf reference filename qualified db).1 later
      → ReadOr env
          (IsProven (env.sha256_bytes pdf))
          later
          (verify_document env (env.sha256_bytes pdf) later).0
  unfolding verify_document ◌>>=◌
  verify_document-Lived describe s pdf reference filename qualified db {d} {later} signed sealed
        lived =
      let rows = seal_document-IsSealed env s pdf reference filename qualified db sealed in
      let (added, grown, own) = rows-Lived env describe lived in
      let (e, found, of_digest, e_signed) =
        find_sha256-All env (env.sha256_bytes pdf) d db.signed_documents added signed rows.is_signed
          rows.of_digest in
      let here : find_sha256 (env.sha256_bytes pdf) later.signed_documents ≡ some e =
        rw (grown, rows.signed) found in
      rw (laws.lower pdf, here)
        (answer_for-IsSigned (env.sha256_bytes pdf) (env.sha256_bytes pdf) e later of_digest
          e_signed)
