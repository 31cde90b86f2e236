-- ===== src/Signatures.antt =====
-- app/engines/signature_manager.py and app/engines/providers/signers.py: the signers by their names,
-- over the RSA key that the platform signer holds. The loading and creation of the key, its certificate
-- and `provider_info` are not modelled.
use ekyc.Prelude.{String, Bool, ◌||◌, Option, if◌then◌else◌, str_eq}
use ekyc.Env.{Env, Bytes}
use ekyc.Exec.{Result, ok, err, unknown_signer}

-- `resolve` of the signature manager: whether the name is one of the platform signer.
abbrev pub resolve_signer : String → Result (Unit {0})
resolve_signer level =
    if str_eq level "platform" || (str_eq level "local" || str_eq level "internal")
    then ok tt
    else err unknown_signer

-- `SIGNATURE_ALGORITHM`
abbrev pub signature_algorithm : String
signature_algorithm = "RSASSA-PKCS1-v1_5-SHA256"

-- app/engines/signature.py
pub record Signature : Type 0 where
  pub value : Bytes
  pub algorithm : String
  pub certificate_fingerprint : Option String
  pub provider : String

abbrev pub resolved : {A : Type 0} → Result (Unit {0}) → A → Result A
resolved (ok u) a = ok a
resolved (err e) a = err e

module _ (env : Env) where
  -- `Signature.b64`
  abbrev pub b64 : Signature → String
  b64 s = env.b64_text s.value

  -- `LocalKeySigner` with its name among the providers
  abbrev pub platform_signature : Bytes → Signature
  platform_signature payload = record {
    value = env.rsa_sign payload;
    algorithm = signature_algorithm;
    certificate_fingerprint = env.certificate_fingerprint;
    provider = "localkey";
  }

  unfoldable pub sign : Bytes → String → Result Signature
  sign payload level = resolved (resolve_signer level) (platform_signature payload)

  -- `verify` without a public key
  unfoldable pub verify : Bytes → Bytes → String → Result Bool
  verify payload signature level =
      resolved (resolve_signer level) (env.rsa_verify payload signature)
