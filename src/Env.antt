-- ===== src/Env.antt =====
-- What the program takes from outside: the configuration (app/core/config.py, `Settings`) and the
-- library functions it calls. A JSON setting stands as `json.loads` returns it.
use ekyc.Prelude.{ℕ, String, Bool, Option, List}
use ekyc.Enums.{Step}
use ekyc.Json.{Double, Json, Fields}

-- Arithmetic of the interpreter's `float`.
pub record FloatOps : Type 0 where
  pub add : Double → Double → Double
  pub mul : Double → Double → Double
  pub div : Double → Double → Double
  -- `round(x, 2)`
  pub round2 : Double → Double
  pub lt : Double → Double → Bool
  pub eq : Double → Double → Bool
  -- `decimal m k` is the literal m / 10 ^ k
  pub decimal : ℕ → ℕ → Double

-- A JSON setting: unset, no JSON, not an object, or an object.
pub data Loaded (A : Type 0) : Type 0 where
  unset : Loaded A
  not_json : Loaded A
  not_object : Loaded A
  object : List (String × A) → Loaded A

-- The keys of a jurisdiction rule, each with its default where it is missing.
pub record RuleConfig : Type 0 where
  pub vault_profile : Option String
  pub retention_days : Option ℕ
  pub tsa_policy : Option String
  pub signature_level : Option String

-- The keys of a TSA provider's configuration.
pub record TsaConfig : Type 0 where
  pub endpoint : Option String
  pub qualified : Option Bool
  pub auth_header : Option String
  pub trusted_ca_path : Option String

-- The keys of a vault's configuration.
pub record VaultConfig : Type 0 where
  pub backend : Option String
  pub root : Option String
  pub bucket : Option String
  pub endpoint_url : Option String
  pub region : Option String

-- `Settings`, in the order of the source.
pub record Settings : Type 0 where
  pub environment : String
  pub base_url : String
  pub database_url : String
  pub redis_url : String
  pub celery_always_eager : Bool
  pub stuck_session_minutes : ℕ
  pub admin_api_key : String
  pub jwt_secret : String
  pub access_token_ttl_seconds : ℕ
  pub session_ttl_seconds : ℕ
  pub storage_backend : String
  pub storage_root : String
  pub s3_bucket : String
  pub s3_endpoint_url : String
  pub s3_region : String
  pub storage_encryption : Bool
  pub kek : String
  pub kek_path : String
  pub kek_version : ℕ
  pub kms_backend : String
  pub default_jurisdiction : String
  pub vaults_json : Loaded VaultConfig
  pub jurisdictions_json : Loaded RuleConfig
  pub tsas_json : Loaded TsaConfig
  pub ocr_provider : String
  pub face_provider : String
  pub otp_provider : String
  pub otp_http_url : String
  pub otp_http_auth_header : String
  pub otp_oauth_token_url : String
  pub otp_oauth_client_id : String
  pub otp_oauth_client_secret : String
  pub otp_sms_sender_id : String
  pub otp_message_template : String
  pub otp_http_body_template : String
  pub otp_http_error_field : String
  pub otp_http_error_value : String
  pub otp_length : ℕ
  pub otp_ttl_seconds : ℕ
  pub otp_max_attempts : ℕ
  pub otp_send_cooldown_seconds : ℕ
  pub otp_send_window_seconds : ℕ
  pub otp_max_sends_per_session : ℕ
  pub otp_max_sends_per_destination : ℕ
  pub biometrics_model_dir : String
  pub manifest_path : String
  pub face_detector_model : String
  pub face_recognizer_model : String
  pub face_model_base_url : String
  pub gpu_enabled : Bool
  pub antispoof_model : String
  pub antispoof_threshold : Double
  pub face_match_cos_reject : Double
  pub face_match_cos_accept : Double
  pub liveness_min_sharpness : Double
  pub liveness_min_face_ratio : Double
  pub signing_backend : String
  pub signing_key_path : String
  pub signing_cert_path : String
  pub signing_dev_self_signed_cert : Bool
  pub tsa_url : String
  pub tsa_qualified_certificates : Bool
  pub face_match_threshold : Double
  pub liveness_threshold : Double
  pub document_review_threshold : Double
  pub risk_accept_threshold : Double
  pub risk_review_threshold : Double
  pub webhook_timeout_seconds : Double
  pub webhook_max_attempts : ℕ

-- A byte string; each number is below 256.
abbrev pub Bytes : Type 0
Bytes = List ℕ

-- app/engines/providers/base.py
pub record OcrResult : Type 0 where
  pub fields : List (String × String)
  pub confidence : Double
  pub provider : String

pub record DocumentAuthenticityResult : Type 0 where
  pub authentic : Bool
  pub confidence : Double
  pub signals : Fields
  pub provider : String

pub record FaceResult : Type 0 where
  pub score : Double
  pub provider : String
  pub details : Fields

-- A storage backend with its configuration (`LocalStorage`, `S3Storage`).
pub data Backend : Type 0 where
  local_storage : String → Backend
  s3_storage : (bucket endpoint_url region : String) → Backend

-- What `httpx.post` does: no response, or one with a status code and a body.
pub data HttpReply : Type 0 where
  no_response : HttpReply
  response : ℕ → Bytes → HttpReply

-- What is drawn on a page: positions in millimetres, from the left and below the top.
pub data Mark : Type 0 where
  font : String → ℕ → Mark
  text_at : (left below : ℕ) → String → Mark
  line_at : (below : ℕ) → Mark

pub record Env : Type 0 where
  pub settings : Settings
  pub floats : FloatOps
  -- `json.dumps(…, sort_keys=True, …)`
  pub dumps : Json → String
  -- `hashlib.sha256(text.encode()).hexdigest()`
  pub sha256 : String → String
  -- `hmac.new(key, message, sha256).hexdigest()`
  pub hmac_sha256 : String → String → String
  -- `datetime.isoformat`
  pub isoformat : ℕ → String
  -- `isoformat(timespec="seconds")`
  pub isoformat_seconds : ℕ → String
  -- `str.upper` and `str.strip`
  pub upper : String → String
  pub strip : String → String
  -- the n-th value that `secrets` and `uuid` draw
  pub random : ℕ → String
  -- `secrets.randbelow(bound)`: the n-th draw, and the bound
  pub randbelow : ℕ → ℕ → ℕ
  -- the reply to the n-th request of the Redis server; `none` is a `RedisError`:
  -- INCR and EXPIRE of a key and a window, SET NX EX of a key and a time to live
  pub redis_incr : ℕ → String → ℕ → Option ℕ
  pub redis_set_nx : ℕ → String → ℕ → Option Bool
  -- the OTP gateway: whether `send` returns without raising
  pub otp_delivers : String → String → String → Bool
  -- `get_vault(profile).delete(key)`: whether a blob was removed; `none` is an exception
  pub vault_delete : String → String → Option Bool
  -- `str.encode`, and the digest of bytes
  pub utf8 : String → Bytes
  pub sha256_bytes : Bytes → String
  -- `os.urandom(length)`: the n-th draw, and the length
  pub urandom : ℕ → ℕ → Bytes
  -- the key that `_load_master_key` returns, HKDF-SHA256 of it with an info, and AES-GCM under a key
  -- with a nonce and additional data; `none` is an exception of the library
  pub master_key : Bytes
  pub hkdf : Bytes → String → Bytes
  pub aes_encrypt : (key nonce plain aad : Bytes) → Bytes
  pub aes_decrypt : (key nonce ciphertext aad : Bytes) → Option Bytes
  -- `os.path.expanduser`, `str` of a number
  pub expanduser : String → String
  pub str_of : ℕ → String
  -- `strftime("%Y/%m/%d")` and `str.lower`
  pub day_text : ℕ → String
  pub lower : String → String
  -- the n-th request of a storage backend: whether `put` returns, and what `get` returns
  pub storage_put : ℕ → Backend → String → Bytes → Bool
  pub storage_get : ℕ → Backend → String → Option Bytes
  -- whether a read that failed raised a `FileNotFoundError`
  pub storage_absent : ℕ → Backend → String → Bool
  -- `jwt.encode` with the claims `sub`, `scope`, `typ`, `iat` and `exp`, and `jwt.decode` at an
  -- instant: the claim `sub`; `none` is a `PyJWTError`
  pub jwt_encode : (secret sub scope typ : String) → (iat exp : ℕ) → String
  pub jwt_decode : String → ℕ → String → Option (Option String)
  -- `bytes.fromhex`; `none` is a `ValueError`
  pub fromhex : String → Option Bytes
  -- the RSA key of the signer: its signature of bytes, and whether a signature of bytes verifies
  -- (that `verify` raises no `InvalidSignature`); the fingerprint of its certificate, if it has one
  pub rsa_sign : Bytes → Bytes
  pub rsa_verify : Bytes → Bytes → Bool
  pub certificate_fingerprint : Option String
  -- `base64.b64encode(…).decode()`, and `base64.b64decode` without and with `validate=True`; `none`
  -- is a `ValueError`
  pub b64_text : Bytes → String
  pub b64_lenient : String → Option Bytes
  pub b64_strict : String → Option Bytes
  -- `PdfReader` and `PdfWriter`: the pages of a file with metadata; `none` is an exception
  pub pdf_with_metadata : Bytes → List (String × String) → Option Bytes
  -- `Canvas`: the file with one page of what is drawn
  pub canvas : List Mark → Bytes
  -- `key.replace("_", " ").title()`, and the order in which a session's `checks` have their keys
  pub titled : String → String
  pub check_order : String → List Step
  -- base64 of bytes
  pub b64encode : Bytes → Bytes
  -- base64, with `validate=True`; `none` is a `ValueError`
  pub b64decode : Bytes → Option Bytes
  -- `date.fromisoformat`, as a number of days; `none` is a `ValueError`
  pub date_fromisoformat : String → Option ℕ
  -- the n-th call of the OCR and the face provider; `none` is an exception
  pub ocr_extract : ℕ → Bytes → String → Option OcrResult
  pub check_authenticity : ℕ → Bytes → OcrResult → Option DocumentAuthenticityResult
  pub liveness : ℕ → Bytes → Option FaceResult
  pub match_faces : ℕ → Bytes → Bytes → Option FaceResult
  -- the n-th call of `httpx.post` with a URL, a body and headers
  pub http_post : ℕ → String → Bytes → List (String × String) → HttpReply
