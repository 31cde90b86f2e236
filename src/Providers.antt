-- ===== src/Providers.antt =====
-- app/engines/providers/__init__.py: the providers by their names in the settings. What is installed on
-- the machine is a parameter.
pub mod Production
pub mod OtpSenders
pub mod Sends
use ekyc.Prelude.{
  String, Bool, true, false, ◌&&◌, Option, none, some, List, [], ◌∷◌, any, if◌then◌else◌, str_eq,
  lookup,
}
use ekyc.Env.{Env, Settings}
use ekyc.Exec.{Result, ok, err, unknown_provider, provider_dependency}

-- The classes of the providers.
pub data Provider : Type 0 where
  stub_ocr tesseract_ocr inhouse_ocr stub_face inhouse_face log_otp http_otp oauth_sms_otp :
      Provider

-- Whether the modules of the extra `biometrics`, those of `ocr` and the tesseract binary are there.
pub record Installed : Type 0 where
  pub cv : Bool
  pub ocr : Bool
  pub tesseract_binary : Bool

-- `_DEV_ONLY`
abbrev pub dev_only : String → Bool
dev_only name = any (str_eq name) ("stub" ∷ "log" ∷ [])

abbrev pub Registry : Type 0
Registry = List (String × Result Provider)

abbrev pub permitted : Settings → String → Option (Result Provider) → Result Provider
permitted settings name none = err unknown_provider
permitted settings name (some factory) =
    if str_eq settings.environment "production" && dev_only name
    then err unknown_provider
    else factory

-- `_resolve`; an entry of the registry stands as what its factory returns.
unfoldable pub resolve : Settings → String → Registry → Result Provider
resolve settings name registry = permitted settings name (lookup name registry)

module _ (installed : Installed) where
  -- `_require_cv`, before the provider is made.
  abbrev pub requiring_cv : Provider → Result Provider
  requiring_cv p = if installed.cv then ok p else err provider_dependency

  abbrev pub tesseract : Result Provider
  tesseract =
      if installed.ocr && installed.tesseract_binary
      then ok tesseract_ocr
      else err provider_dependency

  abbrev pub ocr_registry : Registry
  ocr_registry =
      ("stub", ok stub_ocr) ∷ ("tesseract", tesseract) ∷ ("inhouse", requiring_cv inhouse_ocr) ∷ []

  abbrev pub face_registry : Registry
  face_registry = ("stub", ok stub_face) ∷ ("inhouse", requiring_cv inhouse_face) ∷ []

module _ (settings : Settings) where
  abbrev pub http_sender : Result Provider
  http_sender = if str_eq settings.otp_http_url "" then err provider_dependency else ok http_otp

  -- The fields that `OAuthSmsOtpSender` asks for.
  abbrev pub oauth_fields : List String
  oauth_fields =
      settings.otp_oauth_token_url ∷ settings.otp_oauth_client_id ∷ settings.otp_oauth_client_secret
      ∷ settings.otp_http_url ∷ []

  abbrev pub oauth_sender : Result Provider
  oauth_sender = if any (str_eq "") oauth_fields then err provider_dependency else ok oauth_sms_otp

  abbrev pub otp_registry : Registry
  otp_registry = ("log", ok log_otp) ∷ ("http", http_sender) ∷ ("oauth-sms", oauth_sender) ∷ []

  unfoldable pub get_ocr_provider : Installed → Result Provider
  get_ocr_provider installed = resolve settings settings.ocr_provider (ocr_registry installed)

  unfoldable pub get_face_provider : Installed → Result Provider
  get_face_provider installed = resolve settings settings.face_provider (face_registry installed)

  unfoldable pub get_otp_sender : Result Provider
  get_otp_sender = resolve settings settings.otp_provider otp_registry
