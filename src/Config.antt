-- ===== src/Config.antt =====
-- app/core/config.py, `validate_production_settings`: production does not start on development
-- secrets. A violation is its label; `str.strip` is of `ekyc.Env`.
use ekyc.Prelude.{
  String, ◌≡◌, refl, ◌↔◌, Bool, false, not, ◌&&◌, Option, none, some, List, [], ◌∷◌, ◌++◌, any,
  concat, non_empty, length, ltb, if◌then◌else◌, str_eq, arith, Option-cases, Bool-cases, inl, inr,
  All,
}
use ekyc.Env.{Env, Settings}
use ekyc.Exec.{Result, ok, err, insecure_config}
use ekyc.Otp.Text.{chars}

-- `_FORBIDDEN_SECRET_VALUES` and `_DEV_ONLY_PROVIDERS`
abbrev forbidden_secret_values : List String
forbidden_secret_values =
    "" ∷ "change-me-admin-key" ∷ "change-me-jwt-secret" ∷ "test-admin-key" ∷ "test-jwt-secret"
    ∷ "secret" ∷ "changeme" ∷ "admin" ∷ "password" ∷ []

abbrev pub is_dev_only : String → Bool
is_dev_only provider = any (str_eq provider) ("stub" ∷ "log" ∷ [])

module _ (env : Env) where
  unfoldable pub weak_secret : String → Option String
  weak_secret value =
      if str_eq (env.strip value) ""
      then some "missing or empty"
      else if any (str_eq (env.strip value)) forbidden_secret_values
      then some "a known development/default value"
      else if ltb (length (chars value)) 32
      then some "shorter than 32 characters"
      else none

  abbrev secret_violation : String → String → List String
  secret_violation label value = elim (weak_secret value) [
    | none ↦ []
    | some reason ↦ concat label reason ∷ []
  ]

-- The violation of one provider.
abbrev provider_violation : String → String → List String
provider_violation label provider =
    if is_dev_only provider
    then concat label (concat provider "' provider is development-only") ∷ []
    else []

abbrev certificate_violation : Bool → List String
certificate_violation dev_cert =
    if dev_cert
    then "EKYC_SIGNING_DEV_SELF_SIGNED_CERT: development certificate cannot be used in production"
      ∷ []
    else []

abbrev kek_violation : Bool → String → List String
kek_violation encrypted kek =
    if encrypted && str_eq kek ""
    then "EKYC_KEK: required when storage encryption is enabled" ∷ []
    else []

-- The labels that the tests append, in their order.
abbrev flatten : List (List String) → List String
flatten [] = []
flatten (xs ∷ rest) = xs ++ flatten rest

module _ (env : Env) where
  abbrev violation_lists : Settings → List (List String)
  violation_lists cfg =
      secret_violation env "EKYC_ADMIN_API_KEY: " cfg.admin_api_key
      ∷ secret_violation env "EKYC_JWT_SECRET: " cfg.jwt_secret
      ∷ certificate_violation cfg.signing_dev_self_signed_cert
      ∷ provider_violation "EKYC_OCR_PROVIDER: '" cfg.ocr_provider
      ∷ provider_violation "EKYC_FACE_PROVIDER: '" cfg.face_provider
      ∷ provider_violation "EKYC_OTP_PROVIDER: '" cfg.otp_provider
      ∷ kek_violation cfg.storage_encryption cfg.kek
      ∷ []

  unfoldable pub violations : Settings → List String
  violations cfg = flatten (violation_lists cfg)

  unfoldable pub validate_production_settings : Settings → Result (Unit {0})
  validate_production_settings cfg =
      if not (str_eq cfg.environment "production")
      then ok tt
      else if non_empty (violations cfg)
      then err (insecure_config (violations cfg))
      else ok tt

flatten-empty :
    (xss : List (List String)) → non_empty (flatten xss) ≡ false → All (λ xs. xs ≡ []) xss
flatten-empty [] h = tt
flatten-empty ([] ∷ xss) h = (refl, flatten-empty xss h)
flatten-empty ((x ∷ xs) ∷ xss) h = cc

module _ (env : Env) where
  secret_violation-empty :
      (label value : String) → secret_violation env label value ≡ [] → weak_secret env value ≡ none
  secret_violation-empty label value h = elim (Option-cases (weak_secret env value)) [
    | inl strong ↦ strong
    | inr (reason, weak) ↦ cc (rw (weak, secret_violation) at h)
  ]

  accepted_means :
      (cfg : Settings)
      → non_empty (violations env cfg) ≡ false
      → (weak_secret env cfg.admin_api_key ≡ none)
        × (weak_secret env cfg.jwt_secret ≡ none)
        × (cfg.signing_dev_self_signed_cert ≡ false)
        × (is_dev_only cfg.ocr_provider ≡ false)
        × (is_dev_only cfg.face_provider ≡ false)
        × (is_dev_only cfg.otp_provider ≡ false)
        × (cfg.storage_encryption && str_eq cfg.kek "" ≡ false)
  unfolding violations
  accepted_means cfg h =
      let (a, (b, (c, (d, (e, (f, (g, _))))))) = flatten-empty (violation_lists env cfg) h in
      (
        secret_violation-empty _ _ a,
        secret_violation-empty _ _ b,
        ground arith,
        ground arith,
        ground arith,
        ground arith,
        ground arith,
      )

  -- In production the settings are accepted exactly when both secrets are strong, the development
  -- certificate is off, no provider is a development one, and encrypted storage has a key.
  pub validate_production_settings_iff :
      (cfg : Settings)
      → cfg.environment ≡ "production"
      → (validate_production_settings env cfg ≡ ok tt) ↔ (
          (weak_secret env cfg.admin_api_key ≡ none)
          × (weak_secret env cfg.jwt_secret ≡ none)
          × (cfg.signing_dev_self_signed_cert ≡ false)
          × (is_dev_only cfg.ocr_provider ≡ false)
          × (is_dev_only cfg.face_provider ≡ false)
          × (is_dev_only cfg.otp_provider ≡ false)
          × (cfg.storage_encryption && str_eq cfg.kek "" ≡ false))
  unfolding validate_production_settings violations
  validate_production_settings_iff cfg production = (
    λ accepted. elim (Bool-cases (non_empty (violations env cfg))) [
      | inl some_violation ↦ cc (rw (production, some_violation) at accepted)
      | inr clean ↦ accepted_means cfg clean
    ],
    λ h. rw (production, violation_lists, secret_violation, h.0, h.1, h.2, h.3, h.4, h.5, h.6) refl,
  )
