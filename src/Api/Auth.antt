-- ===== src/Api/Auth.antt =====
-- app/api/v1/tenants.py and auth.py: a tenant is created with its credentials, and exchanges them
-- for a token.
pub mod Tokens
use ekyc.Prelude.{
  ℕ, zero, suc, ◌+◌, ◌<◌, ◌≤◌, String, concat, ◌≡◌, refl, ap, sym, ◌∙◌, eq_refl, Bool, true, false,
  not, ◌||◌, Option, none, some, List, [], ◌∷◌, ◌++◌, select, non_empty, if◌then◌else◌, str_eq,
  or_else,
}
use ekyc.Json.{Fields}
use ekyc.Models.{Tenant}
use ekyc.Env.{Env}
use ekyc.Exec.{
  Db, Result, ok, err, http, Exec, pure, raise, raise_if, gets, or_raise, modify, draw, utcnow,
  transaction, ◌>>=◌, ◌>>◌,
}
use ekyc.Orchestrator.{truthy}
use ekyc.Policy.{FlowPolicy, get_policy}
use ekyc.Store.{find_tenant}
use ekyc.Kyc.Session.{hash_secret, verify_secret}
use ekyc.Api.{bearer, get_current_tenant}

-- `TenantCreateRequest`
pub record TenantCreate : Type 0 where
  pub name : String
  pub webhook_url : Option String
  pub allowed_flows : List String
  pub branding : Fields
  pub retention_days : ℕ
  pub default_jurisdiction : Option String

-- `TenantCredentialsResponse`
pub record Credentials : Type 0 where
  pub tenant_id : String
  pub name : String
  pub client_id : String
  pub client_secret : String
  pub webhook_secret : Option String

-- `flow in FLOWS`
abbrev pub is_ok : Result FlowPolicy → Bool
is_ok (ok policy) = true
is_ok (err e) = false

unfoldable pub is_flow : String → Bool
is_flow flow = is_ok (get_policy flow)

-- The first row with this client id.
abbrev pub find_client : String → List Tenant → Option Tenant
find_client id [] = none
find_client id (t ∷ rest) = if str_eq t.client_id id then some t else find_client id rest

abbrev pub joined : List String → String
joined [] = ""
joined (flow ∷ []) = flow
joined (flow ∷ rest) = concat flow (concat ", " (joined rest))

module _ (env : Env) where
  -- `new_client_id` and `new_secret`
  unfoldable pub new_client_id : Exec String
  new_client_id = do n ← draw; pure (concat "cid_" (env.random n))

  unfoldable pub new_secret : String → Exec String
  new_secret prefix = do n ← draw; pure (concat prefix (concat "_" (env.random n)))

  abbrev pub webhook_secret_for : Option String → Exec (Option String)
  webhook_secret_for none = pure none
  webhook_secret_for (some url) = do secret ← new_secret "whsec"; pure (some secret)

  abbrev pub new_tenant :
      TenantCreate → (id client_id client_secret : String) → Option String → ℕ → Tenant
  new_tenant request id client_id client_secret webhook_secret now = record {
    id = id;
    name = request.name;
    client_id = client_id;
    client_secret_hash = hash_secret env client_secret;
    active = true;
    webhook_url = request.webhook_url;
    webhook_secret = webhook_secret;
    allowed_flows = request.allowed_flows;
    branding = request.branding;
    retention_days = request.retention_days;
    default_jurisdiction = request.default_jurisdiction;
    created_at = now;
  }

  unfoldable pub insert_tenant : Tenant → Exec (Unit {0})
  insert_tenant t = modify (λ db. record db { tenants = db.tenants ++ t ∷ [] })

  unfoldable pub create_tenant : TenantCreate → Exec Credentials
  create_tenant request = transaction do
    let unknown = select (λ flow. not (is_flow flow)) request.allowed_flows
    raise_if (non_empty unknown) (http 400 (concat "Unknown flows: " (joined unknown)))
    client_id ← new_client_id
    client_secret ← new_secret "sk"
    webhook_secret ← webhook_secret_for (truthy request.webhook_url)
    n ← draw
    now ← utcnow
    let t = new_tenant request (env.random n) client_id client_secret webhook_secret now
    insert_tenant t
    pure (record {
      tenant_id = t.id;
      name = t.name;
      client_id = client_id;
      client_secret = client_secret;
      webhook_secret = webhook_secret;
    })

  -- `create_access_token`
  unfoldable pub create_access_token : String → Exec (String × ℕ)
  create_access_token tenant_id = do
    now ← utcnow
    let ttl = env.settings.access_token_ttl_seconds
    pure (env.jwt_encode env.settings.jwt_secret tenant_id "kyc" "tenant" now (now + ttl), ttl)

  abbrev pub token_for : String → Option Tenant → Exec (String × ℕ)
  token_for secret none = raise (http 401 "Invalid client credentials")
  token_for secret (some t) =
      if not t.active || not (verify_secret env secret t.client_secret_hash)
      then raise (http 401 "Invalid client credentials")
      else create_access_token t.id

  unfoldable pub issue_token : (client_id client_secret : String) → Exec (String × ℕ)
  issue_token client_id client_secret = do
    tenant ← gets (λ db. find_client client_id db.tenants)
    token_for client_secret tenant
