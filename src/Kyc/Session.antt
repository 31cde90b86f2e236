-- ===== src/Kyc/Session.antt =====
-- app/services/kyc.py: consent, authentication and creation of sessions; app/core/security.py.
use ekyc.Prelude.{
  ℕ, ◌+◌, String, Bool, true, false, not, ◌&&◌, Option, none, some, [], ◌∷◌, any, non_empty, leb,
  if◌then◌else◌, str_eq,
}
use ekyc.Json.{Fields, dict, str, int}
use ekyc.Enums.{SessionStatus, CheckStatus, Step, AuditEventType, is_terminal}
use ekyc.Models.{KycSession, Tenant, Consent, no_internal}
use ekyc.Env.{Env}
use ekyc.Exec.{
  Result, session_closed, session_expired, consent_required, permission_error, Exec, pure, lift,
  raise_if, utcnow, draw, ◌>>=◌, ◌>>◌,
}
use ekyc.Policy.{FlowPolicy, get_policy, contains_step}
use ekyc.Decision.{decidable_steps}
use ekyc.Audit.{NewEvent, record_event, optional_str}
use ekyc.Orchestrator
use ekyc.Orchestrator.{RegulatoryProfile}
use ekyc.Store.{save_session, insert_session, load_session}

-- Consent (`grant_consent`, `decline_consent`, `require_consent`).
abbrev pub consent_given : Option Consent → Bool
consent_given none = false
consent_given (some c) = c.accepted

unfoldable pub policy_of : KycSession → Result FlowPolicy
policy_of s = get_policy s.flow

module _ (env : Env) where
  unfoldable pub grant_consent :
      String → (policy_version : String) → (ip user_agent : Option String) → Exec (Unit {0})
  grant_consent sid policy_version ip user_agent = do
    s ← load_session sid
    now ← utcnow
    let given : Consent = record {
      accepted = true;
      at = now;
      policy_version = policy_version;
      ip = ip;
      user_agent = user_agent;
    }
    save_session (record s { consent = some given; updated_at = now })
    record_event env (record {
      tenant_id = s.tenant_id;
      session_id = s.id;
      event_type = AuditEventType.consent_given;
      payload = dict (("policy_version", str policy_version) ∷ []);
      actor = "END_USER";
      ip = ip;
      user_agent = none;
      document_hash = none;
    })
    pure tt

  unfoldable pub decline_consent : String → String → Option String → Exec (Unit {0})
  decline_consent sid policy_version ip = do
    s ← load_session sid
    record_event env (record {
      tenant_id = s.tenant_id;
      session_id = s.id;
      event_type = AuditEventType.consent_declined;
      payload = dict (("policy_version", str policy_version) ∷ []);
      actor = "END_USER";
      ip = ip;
      user_agent = none;
      document_hash = none;
    })
    pure tt

unfoldable pub require_consent : KycSession → Exec (Unit {0})
unfolding policy_of
require_consent s = do
  policy ← lift (policy_of s)
  raise_if (policy.requires_consent && not (consent_given s.consent)) consent_required

-- `ensure_active`
unfoldable pub ensure_active : KycSession → Exec (Unit {0})
ensure_active s = do
  raise_if (is_terminal s.status) (session_closed s.status)
  now ← utcnow
  raise_if (leb s.expires_at now) session_expired

-- app/core/security.py
unfoldable pub hash_secret : Env → String → String
hash_secret env secret = env.hmac_sha256 env.settings.jwt_secret secret

unfoldable pub verify_secret : Env → String → String → Bool
unfolding hash_secret
verify_secret env secret secret_hash = str_eq (hash_secret env secret) secret_hash

unfoldable pub authenticate_session : Env → KycSession → String → Exec (Unit {0})
unfolding verify_secret
authenticate_session env s token = do
  raise_if (not (verify_secret env token s.access_token_hash)) permission_error
  ensure_active s

-- `{str(step): PENDING for step in decidable_steps(policy)}`
abbrev pub initial_checks : FlowPolicy → Step → Option CheckStatus
initial_checks p s = if contains_step (decidable_steps p) s then some CheckStatus.pending else none

abbrev pub new_session :
    String
    → Tenant
    → FlowPolicy
    → RegulatoryProfile
    → Option String
    → Fields
    → String
    → ℕ
    → ℕ
    → KycSession
new_session id tenant policy profile reference metadata token_hash now ttl = record {
  id = id;
  tenant_id = tenant.id;
  customer_reference = reference;
  flow = policy.name;
  status = SessionStatus.created;
  access_token_hash = token_hash;
  expires_at = now + ttl;
  jurisdiction = profile.jurisdiction;
  vault_profile = profile.vault_profile;
  retention_days = profile.retention_days;
  tsa_policy = profile.tsa_policy;
  signature_level = profile.signature_level;
  identity = [];
  checks = initial_checks policy;
  internal = no_internal;
  consent = none;
  metadata = metadata;
  reasons = [];
  created_at = now;
  updated_at = now;
  completed_at = none;
  purged_at = none;
}

module _ (env : Env) where
  creation_event : KycSession → RegulatoryProfile → Option String → NewEvent
  creation_event s profile ip = record {
    tenant_id = s.tenant_id;
    session_id = s.id;
    event_type = AuditEventType.kyc_session_created;
    payload = dict (
        ("flow", str s.flow)
        ∷ ("customer_reference", optional_str s.customer_reference)
        ∷ ("jurisdiction", str profile.jurisdiction)
        ∷ ("jurisdiction_source", str profile.source)
        ∷ ("vault_profile", str profile.vault_profile)
        ∷ ("retention_days", int profile.retention_days)
        ∷ ("tsa_policy", str profile.tsa_policy)
        ∷ ("signature_level", str profile.signature_level)
        ∷ []);
    actor = "TENANT";
    ip = ip;
    user_agent = none;
    document_hash = none;
  }

  -- The session and the clear token. Token and id are two random draws.
  unfoldable pub create_session :
      Tenant
      → (flow : String) → (reference : Option String) → Fields
      → (jurisdiction ip : Option String) → Exec (KycSession × String)
  unfolding hash_secret creation_event
  create_session tenant flow reference metadata jurisdiction ip = do
    policy ← lift (get_policy flow)
    raise_if (non_empty tenant.allowed_flows && not (any (str_eq flow) tenant.allowed_flows))
        permission_error
    profile ← lift (Orchestrator.resolve env tenant jurisdiction)
    token_draw ← draw
    id_draw ← draw
    now ← utcnow
    let token = env.random token_draw
    let s =
        new_session (env.random id_draw) tenant policy profile reference metadata
          (hash_secret env token) now env.settings.session_ttl_seconds
    insert_session s
    record_event env (creation_event s profile ip)
    pure (s, token)
