-- ===== src/Tests/Fixtures.antt =====
-- Concrete settings, library functions and rows for the tests.
use ekyc.Prelude.{
  zero, suc, ◌-◌, ◌%◌, ◌++◌, length, take, ℕ, ◌+◌, ◌*◌, ◌/◌, ◌^◌, String, true, false, Option, none,
  some, List, [], ◌∷◌, concat, ltb, ◌==◌, if◌then◌else◌, str_eq,
}
use ekyc.Json.{Json, str, obj, Fields, end, field}
use ekyc.Enums.{SessionStatus, CheckStatus, Step, AuditEventType}
use ekyc.Models.{Tenant, KycSession, OtpChallenge, no_internal}
use ekyc.Tsa.Verify.{bytes_eq}
use ekyc.Vault.{from_big_endian}
use ekyc.Env.{Bytes, response, FloatOps, Settings, RuleConfig, unset, object, Env}
use ekyc.Exec.{Db}
use ekyc.Audit.{NewEvent}
use ekyc.Otp.Text.{code_text, chars}

-- Numbers in thousandths.
abbrev pub floats : FloatOps
floats = record {
  add = λ a b. record { bits = a.bits + b.bits };
  mul = λ a b. record { bits = (a.bits * b.bits) / 1000 };
  div = λ a b. record { bits = if b.bits == 0 then 0 else (a.bits * 1000) / b.bits };
  round2 = λ a. record { bits = (a.bits / 10) * 10 };
  lt = λ a b. ltb a.bits b.bits;
  eq = λ a b. a.bits == b.bits;
  decimal = λ m k. record { bits = (m * 1000) / (10 ^ k) };
}

abbrev pub local_rule : RuleConfig
local_rule = record {
  vault_profile = some "ci-vault";
  retention_days = some 1825;
  tsa_policy = none;
  signature_level = none;
}

abbrev pub configured : List (String × RuleConfig)
configured = ("CI", local_rule) ∷ ("FR", local_rule) ∷ []

abbrev pub settings : Settings
settings = record {
  environment = "test";
  base_url = "http://localhost";
  database_url = "";
  redis_url = "";
  celery_always_eager = false;
  stuck_session_minutes = 15;
  admin_api_key = "";
  jwt_secret = "jwt";
  access_token_ttl_seconds = 0;
  session_ttl_seconds = 1800;
  storage_backend = "";
  storage_root = "";
  s3_bucket = "";
  s3_endpoint_url = "";
  s3_region = "";
  storage_encryption = true;
  kek = "kek";
  kek_path = "";
  kek_version = 1;
  kms_backend = "local";
  default_jurisdiction = "GLOBAL";
  vaults_json = unset;
  jurisdictions_json = object configured;
  tsas_json = unset;
  ocr_provider = "stub";
  face_provider = "stub";
  otp_provider = "log";
  otp_http_url = "";
  otp_http_auth_header = "";
  otp_oauth_token_url = "";
  otp_oauth_client_id = "";
  otp_oauth_client_secret = "";
  otp_sms_sender_id = "";
  otp_message_template = "";
  otp_http_body_template = "";
  otp_http_error_field = "";
  otp_http_error_value = "";
  otp_length = 4;
  otp_ttl_seconds = 300;
  otp_max_attempts = 3;
  otp_send_cooldown_seconds = 60;
  otp_send_window_seconds = 3600;
  otp_max_sends_per_session = 5;
  otp_max_sends_per_destination = 8;
  biometrics_model_dir = "";
  manifest_path = "";
  face_detector_model = "";
  face_recognizer_model = "";
  face_model_base_url = "";
  gpu_enabled = false;
  antispoof_model = "";
  antispoof_threshold = record { bits = 0 };
  face_match_cos_reject = record { bits = 0 };
  face_match_cos_accept = record { bits = 0 };
  liveness_min_sharpness = record { bits = 0 };
  liveness_min_face_ratio = record { bits = 0 };
  signing_backend = "";
  signing_key_path = "";
  signing_cert_path = "";
  signing_dev_self_signed_cert = true;
  tsa_url = "";
  tsa_qualified_certificates = false;
  face_match_threshold = record { bits = 700 };
  liveness_threshold = record { bits = 800 };
  document_review_threshold = record { bits = 750 };
  risk_accept_threshold = record { bits = 80000 };
  risk_review_threshold = record { bits = 50000 };
  webhook_timeout_seconds = record { bits = 0 };
  webhook_max_attempts = 5;
}

abbrev pub shown : Json → String
shown (str s) = String.◌∷◌ "=" s
shown _ = ""

-- The value at `previous_event_hash`: a text of an event that shows the hash before it.
abbrev pub shown_previous : Fields → String
shown_previous end = ""
shown_previous (field k v rest) =
    let r = shown_previous rest in if str_eq k "previous_event_hash" then shown v else r

abbrev pub dumps : Json → String
dumps (obj fields) = shown_previous fields
dumps _ = ""

abbrev pub replicate_byte : ℕ → ℕ → Bytes
replicate_byte zero b = []
replicate_byte (suc n) b = b ∷ replicate_byte n b

-- Redis answers no request.
abbrev pub env : Env
env = record {
  settings = settings;
  floats = floats;
  dumps = dumps;
  sha256 = λ x. concat "#" x;
  hmac_sha256 = λ key x. concat key x;
  isoformat_seconds = λ t. code_text 6 t;
  isoformat = λ t. code_text 6 t;
  upper = λ s. if str_eq s "ci" then "CI" else s;
  strip = λ s. s;
  random = λ n. code_text 4 n;
  randbelow = λ n bound. n;
  redis_incr = λ n key window. none;
  redis_set_nx = λ n key ttl. none;
  otp_delivers = λ channel destination code. true;
  vault_delete = λ profile key. some true;
  utf8 = λ text. length (chars text) ∷ [];
  sha256_bytes = λ plain. code_text 4 (length plain);
  urandom = λ n size. replicate_byte size (n % 256);
  master_key = replicate_byte 32 7;
  hkdf = λ key info. key;
  aes_encrypt = λ key nonce plain aad. plain ++ replicate_byte 16 0;
  aes_decrypt = λ key nonce ciphertext aad. some (take (length ciphertext - 16) ciphertext);
  expanduser = λ s. s;
  str_of = λ n. code_text 1 n;
  day_text = λ t. code_text 8 (t / 86400);
  lower = λ s. s;
  storage_put = λ n backend key plain. true;
  storage_absent = λ n backend key. false;
  storage_get = λ n backend key. some (1 ∷ 2 ∷ 3 ∷ []);
  jwt_encode = λ secret sub scope typ iat exp. sub;
  jwt_decode = λ secret now token. some (some token);
  fromhex = λ digest. some (length (chars digest) ∷ []);
  rsa_sign = λ plain. length plain ∷ [];
  b64encode = λ plain. plain;
  rsa_verify = λ plain signature. bytes_eq signature (length plain ∷ []);
  certificate_fingerprint = none;
  b64_text = λ plain. code_text 4 (from_big_endian 0 plain);
  b64_lenient = λ text. some (1 ∷ []);
  b64_strict = λ text. some (1 ∷ 2 ∷ []);
  pdf_with_metadata = λ pdf entries. some (pdf ++ length entries ∷ []);
  titled = λ s. s;
  check_order = λ sid. [];
  canvas = λ marks. length marks ∷ [];
  b64decode = λ plain. some plain;
  date_fromisoformat = λ text. if str_eq text "2030-01-01" then some 21915 else none;
  ocr_extract = λ n image kind. some (record {
    fields = ("first_name", "Awa") ∷ ("expiry_date", "2030-01-01") ∷ [];
    confidence = record { bits = 900 };
    provider = "stub";
  });
  check_authenticity = λ n image ocr. some (record {
    authentic = true;
    confidence = record { bits = 900 };
    signals = end;
    provider = "stub";
  });
  liveness =
      λ n selfie. some (record { score = record { bits = 900 }; provider = "stub"; details = end });
  match_faces = λ n selfie image.
      some (record { score = record { bits = 900 }; provider = "stub"; details = end });
  http_post = λ n url body headers. response 200 [];
}

abbrev pub tenant : Tenant
tenant = record {
  id = "t1";
  name = "Insurer";
  client_id = "c1";
  client_secret_hash = "h";
  active = true;
  webhook_url = some "https://insurer.example/hook";
  webhook_secret = some "secret";
  allowed_flows = [];
  branding = end;
  retention_days = 3650;
  default_jurisdiction = some "FR";
  created_at = 0;
}

abbrev pub passed_checks : Step → Option CheckStatus
passed_checks Step.document_verification = some CheckStatus.passed
passed_checks Step.otp = some CheckStatus.passed
passed_checks _ = none

abbrev pub failed_checks : Step → Option CheckStatus
failed_checks Step.otp = some CheckStatus.failed
failed_checks s = passed_checks s

abbrev pub open_session : KycSession
open_session = record {
  id = "s1";
  tenant_id = "t1";
  customer_reference = none;
  flow = "CITIZEN";
  status = SessionStatus.in_progress;
  access_token_hash = "jwttoken";
  expires_at = 1000;
  jurisdiction = "FR";
  vault_profile = "default";
  retention_days = 3650;
  tsa_policy = "qualified";
  signature_level = "platform";
  identity = ("first_name", "Awa") ∷ ("document_number", "X1") ∷ [];
  checks = passed_checks;
  internal = no_internal;
  consent = none;
  metadata = end;
  reasons = [];
  created_at = 0;
  updated_at = 0;
  completed_at = none;
  purged_at = none;
}

-- A session that was verified; its OTP check has since failed.
abbrev pub verified_session : KycSession
verified_session = record open_session {
  status = SessionStatus.verified;
  checks = failed_checks;
  completed_at = some 50;
}

abbrev pub challenge : OtpChallenge
challenge = record {
  id = 7;
  session_id = "s1";
  tenant_id = "t1";
  channel = "SMS";
  destination_masked = "**0102";
  destination_hash = "#";
  code_hash = "jwt1234";
  attempts = 1;
  expires_at = 400;
  verified_at = none;
  created_at = 100;
}

abbrev pub empty_db : Db
empty_db = record {
  now = 0;
  serial = 0;
  tenants = tenant ∷ [];
  sessions = [];
  events = [];
  challenges = [];
  artifacts = [];
  documents = [];
  biometrics = [];
  deliveries = [];
  signed_documents = [];
  limiter = record { mem = []; down_until = 0 };
  queue = [];
}

-- One session, at an instant, with one challenge; Redis is known to be down.
abbrev pub db_at : ℕ → KycSession → Db
db_at t s = record empty_db {
  now = t;
  sessions = s ∷ [];
  challenges = challenge ∷ [];
  limiter = record { mem = []; down_until = 1000 };
}

abbrev pub note : String → NewEvent
note actor = record {
  tenant_id = "t1";
  session_id = "s1";
  event_type = AuditEventType.document_uploaded;
  payload = end;
  actor = actor;
  ip = none;
  user_agent = none;
  document_hash = none;
}
