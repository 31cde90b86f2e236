-- ===== src/Providers/Production.antt =====
-- app/engines/providers/__init__.py with app/core/config.py: no development provider runs in production.
use ekyc.Prelude.{
  if◌then◌else◌, String, ◌≡◌, refl, Bool, true, false, some, Option-cases, Bool-cases, inl, inr,
  str_eq, eq_iff, lookup, [], ◌∷◌,
}
use mathlib.Core.Path.{subst}
use ekyc.Env.{Env, Settings}
use ekyc.Exec.{Exn, Result, ok, err}
use ekyc.Config.{is_dev_only, validate_production_settings, validate_production_settings_iff}
use ekyc.Providers.{
  Provider, stub_ocr, stub_face, log_otp, Installed, dev_only, Registry, permitted, resolve,
  ocr_registry, face_registry, otp_registry, get_ocr_provider, get_face_provider, get_otp_sender,
}

-- A provider for development and tests.
abbrev pub is_development : Provider → Bool
is_development stub_ocr = true
is_development stub_face = true
is_development log_otp = true
is_development _ = false

-- The provider of a getter, if there is one, is none for development.
abbrev pub IsReal : Result Provider → Type 0
IsReal (ok p) = is_development p ≡ false
IsReal (err e) = Unit

module _ (settings : Settings) (production : settings.environment ≡ "production")
    (installed : Installed) where
  resolve-dev :
      (name : String) (registry : Registry)
      → dev_only name ≡ true
      → IsReal (resolve settings name registry)
  unfolding resolve
  resolve-dev name registry dev = elim (Option-cases (lookup name registry)) [
    | inl missing ↦ rw missing tt
    | inr (factory, found) ↦ rw (found, production, dev) tt
  ]

  -- A registry whose factories under other names make no development provider.
  abbrev Honest : Registry → Type 0
  Honest [] = Unit
  Honest ((name, factory) ∷ rest) = (dev_only name ≡ false → IsReal factory) × Honest rest

  permitted-IsReal :
      (name : String) (registry : Registry)
      → dev_only name ≡ false
      → Honest registry
      → IsReal (permitted settings name (lookup name registry))
  permitted-IsReal name [] real honest = tt
  permitted-IsReal name ((other, factory) ∷ rest) real honest =
      elim (Bool-cases (str_eq other name)) [
        | inl same ↦
            let own : dev_only other ≡ false = rw ((eq_iff other name).0 same) real in
            rw (same, real, production) (honest.0 own)
        | inr different ↦ rw different (permitted-IsReal name rest real honest.1)
      ]

  resolve-IsReal :
      (name : String) (registry : Registry)
      → Honest registry
      → IsReal (resolve settings name registry)
  unfolding resolve
  resolve-IsReal name registry honest = elim (Bool-cases (dev_only name)) [
    | inl dev ↦ resolve-dev name registry dev
    | inr real ↦ permitted-IsReal name registry real honest
  ]

  if-IsReal :
      (b : Bool) (p : Provider) (e : Exn)
      → is_development p ≡ false
      → IsReal (if b then ok p else err e)
  if-IsReal true p e real = real
  if-IsReal false p e real = tt

  unless-IsReal :
      (b : Bool) (p : Provider) (e : Exn)
      → is_development p ≡ false
      → IsReal (if b then err e else ok p)
  unless-IsReal true p e real = tt
  unless-IsReal false p e real = real

  -- In production no provider for development and tests is made, whatever the settings name and whatever is
  -- installed.
  pub get_providers-IsReal :
      IsReal (get_ocr_provider settings installed)
      × IsReal (get_face_provider settings installed)
      × IsReal (get_otp_sender settings)
  unfolding get_ocr_provider get_face_provider get_otp_sender
  get_providers-IsReal = (
    resolve-IsReal _ (ocr_registry installed)
        (λ dev. cc, (λ dev. if-IsReal _ _ _ refl, (λ dev. if-IsReal _ _ _ refl, tt))),
    resolve-IsReal _ (face_registry installed) (λ dev. cc, (λ dev. if-IsReal _ _ _ refl, tt)),
    resolve-IsReal _ (otp_registry settings)
        (λ dev. cc, (λ dev. unless-IsReal _ _ _ refl, (λ dev. unless-IsReal _ _ _ refl, tt))),
  )

  resolve-known :
      (name : String) (registry : Registry) (factory : Result Provider)
      → lookup name registry ≡ some factory
      → is_dev_only name ≡ false
      → resolve settings name registry ≡ factory
  unfolding resolve
  resolve-known name registry factory known real = rw (known, real, production) refl

  -- In production, settings that the validation accepts and that name known providers get what the factories of
  -- these names return, and no provider for development and tests.
  pub get_providers-validated :
      (env : Env) {ocr face otp : Result Provider}
      → validate_production_settings env settings ≡ ok tt
      → lookup settings.ocr_provider (ocr_registry installed) ≡ some ocr
      → lookup settings.face_provider (face_registry installed) ≡ some face
      → lookup settings.otp_provider (otp_registry settings) ≡ some otp
      → (get_ocr_provider settings installed ≡ ocr)
        × (get_face_provider settings installed ≡ face)
        × (get_otp_sender settings ≡ otp)
        × IsReal ocr
        × IsReal face
        × IsReal otp
  unfolding get_ocr_provider get_face_provider get_otp_sender
  get_providers-validated env accepted ocr_known face_known otp_known =
      let (a, b, c, ocr_real, face_real, otp_real, g) =
        (validate_production_settings_iff env settings production).0 accepted in
      let ocr_is = resolve-known _ _ _ ocr_known ocr_real in
      let face_is = resolve-known _ _ _ face_known face_real in
      let otp_is = resolve-known _ _ _ otp_known otp_real in
      let (x, y, z) = get_providers-IsReal in
      (
        ocr_is,
        face_is,
        otp_is,
        subst IsReal ocr_is x,
        subst IsReal face_is y,
        subst IsReal otp_is z,
      )
