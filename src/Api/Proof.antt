-- ===== src/Api/Proof.antt =====
-- app/api/v1/verify.py: a third party checks a document by its hash.
use ekyc.Prelude.{ℕ, String, Bool, Option, none, some, List, str_eq, first}
use ekyc.Models.{SignedDocument, Artifact}
use ekyc.Env.{Env, Bytes}
use ekyc.Exec.{Result, ok, err, value_error, Exec, pure, gets, or_raise, ◌>>=◌}
use ekyc.Archive.{read_artifact}
use ekyc.Signatures
use ekyc.Tsa.Verify
use ekyc.Tsa.Verify.{verify_token}
use ekyc.Identity.{find_artifact}

-- What is said of the timestamp token.
pub data TokenReport : Type 0 where
  unverified purged : TokenReport
  verified : Verify.Report → TokenReport

pub record Proof : Type 0 where
  pub sha256 : String
  pub issued_at : String
  pub purged_at : Option String
  pub signature_algorithm : String
  pub certificate_fingerprint : Option String
  pub signature_verified : Option Bool
  pub timestamp_authority : Option String
  pub timestamp_qualified : Bool
  pub timestamp_provider : String
  pub timestamp_verification : TokenReport

-- The answer: whether the hash is known, with the proof.
pub data Answer : Type 0 where
  unknown : String → Answer
  known : Proof → Answer

-- `where(sha256 == …).limit(1)`; the first row of the table.
abbrev pub find_sha256 : String → List SignedDocument → Option SignedDocument
find_sha256 digest = first (λ (d : SignedDocument). str_eq d.sha256 digest)

abbrev pub or_none : Result Bool → Option Bool
or_none (ok b) = some b
or_none (err e) = none

abbrev pub purged_at_of : Option Artifact → Option ℕ
purged_at_of none = none
purged_at_of (some a) = a.purged_at

module _ (env : Env) where
  abbrev pub checked_signature : Bytes → Option Bytes → Option Bool
  checked_signature plain none = none
  checked_signature plain (some signature) =
      or_none (Signatures.verify env plain signature "platform")

  -- The token of an artifact, verified where its blob is kept.
  abbrev pub verify_kept : SignedDocument → Artifact → Option ℕ → Exec TokenReport
  verify_kept d a (some at) = pure purged
  verify_kept d a none = do
    token ← read_artifact env a
    pure (verified (verify_token env d.sha256 token (some d.timestamp_details.issued_at)))

  abbrev pub verify_stored : SignedDocument → Option Artifact → Exec TokenReport
  verify_stored d none = pure unverified
  verify_stored d (some a) = verify_kept d a a.purged_at

  abbrev pub verify_timestamp : SignedDocument → Option ℕ → Exec TokenReport
  verify_timestamp d none = pure unverified
  verify_timestamp d (some id) = do
    found ← gets (λ db. find_artifact id db.artifacts)
    verify_stored d found

  abbrev pub iso : Option ℕ → Option String
  iso none = none
  iso (some at) = some (env.isoformat at)

  abbrev pub proof_of : SignedDocument → Option Bool → TokenReport → Option Artifact → Proof
  proof_of d signature token artifact = record {
    sha256 = d.sha256;
    issued_at = env.isoformat d.created_at;
    purged_at = iso (purged_at_of artifact);
    signature_algorithm = d.signature_algorithm;
    certificate_fingerprint = d.certificate_fingerprint;
    signature_verified = signature;
    timestamp_authority = d.timestamp_authority;
    timestamp_qualified = d.timestamp_details.qualified;
    timestamp_provider = d.timestamp_details.provider;
    timestamp_verification = token;
  }

  abbrev pub answer_for : String → Option SignedDocument → Exec Answer
  answer_for sha256 none = pure (unknown sha256)
  answer_for sha256 (some d) = do
    plain ← or_raise (env.fromhex d.sha256) value_error
    let signature = checked_signature plain (env.b64_lenient d.signature)
    token ← verify_timestamp d d.timestamp_token_artifact_id
    artifact ← gets (λ db. find_artifact d.signed_artifact_id db.artifacts)
    pure (known (proof_of d signature token artifact))

  unfoldable pub verify_document : String → Exec Answer
  verify_document sha256 = do
    found ← gets (λ db. find_sha256 (env.lower sha256) db.signed_documents)
    answer_for sha256 found
