-- ===== src/Api.antt =====
-- app/api/deps.py: who calls, and which session the call is about.
pub mod Verification
pub mod Guards
pub mod Sessions
pub mod Auth
pub mod Documents
pub mod Proof
pub mod Certificates
use Prim.Native.Char.{Char, code}
use ekyc.Prelude.{
  ℕ, String, concat, Bool, true, false, not, ◌||◌, Option, none, some, List, [], ◌∷◌, ◌==◌,
  if◌then◌else◌, str_eq, or_else,
}
use ekyc.Enums.{session_status_str}
use ekyc.Models.{KycSession, Tenant}
use ekyc.Env.{Env}
use ekyc.Exec.{
  Db, Exn, Result, ok, err, http, session_expired, session_closed, key_error, Exec, pure, raise,
  raise_if, gets, or_raise, utcnow, ◌>>=◌, ◌>>◌,
}
use ekyc.Orchestrator.{truthy}
use ekyc.Otp.Text.{chars, text}
use ekyc.Store.{find_session, find_tenant}
use ekyc.Kyc.Session.{verify_secret, ensure_active}

-- `except … as exc: raise …`: the exception that leaves the block.
abbrev pub remapped : {A : Type 0} → (Exn → Exn) → Result A × Db → Result A × Db
remapped f (ok a, db) = (ok a, db)
remapped f (err e, db) = (err (f e), db)

unfoldable pub raising_as : {A : Type 0} → (Exn → Exn) → Exec A → Exec A
raising_as f m db = remapped f (m db)

-- `text.startswith(prefix)`
abbrev pub has_prefix : List Char → List Char → Bool
has_prefix [] cs = true
has_prefix (p ∷ ps) [] = false
has_prefix (p ∷ ps) (c ∷ cs) = if code p == code c then has_prefix ps cs else false

-- `authorization.split(" ", 1)[1]`, where there is a space.
abbrev pub after_space : List Char → Option (List Char)
after_space [] = none
after_space (c ∷ cs) = if code c == b' ' then some cs else after_space cs

-- `forwarded.split(",")[0]`
abbrev pub before_comma : List Char → List Char
before_comma [] = []
before_comma (c ∷ cs) = if code c == b',' then [] else c ∷ before_comma cs

-- The exceptions of `ensure_active` as answers.
abbrev pub closed_error : Exn → Exn
closed_error Exn.session_expired = http 410 "Session expired"
closed_error (Exn.session_closed status) =
    http 409 (concat "Session is already " (session_status_str status))
closed_error e = e

unfoldable pub require_open : KycSession → Exec (Unit {0})
require_open s = raising_as closed_error (ensure_active s)

module _ (env : Env) where
  abbrev pub stripped : Option (List Char) → Exec String
  stripped none = raise key_error
  stripped (some rest) = pure (env.strip (text rest))

  -- `_bearer`
  unfoldable pub bearer : Option String → Exec String
  bearer none = raise (http 401 "Missing bearer token")
  bearer (some authorization) =
      if str_eq authorization ""
        || not (has_prefix (chars "bearer ") (chars (env.lower authorization)))
      then raise (http 401 "Missing bearer token")
      else stripped (after_space (chars authorization))

  abbrev pub active_tenant : Option Tenant → Exec Tenant
  active_tenant none = raise (http 401 "Unknown tenant")
  active_tenant (some t) = if t.active then pure t else raise (http 401 "Unknown tenant")

  unfoldable pub get_current_tenant : Option String → Exec Tenant
  unfolding bearer
  get_current_tenant authorization = do
    token ← bearer authorization
    now ← utcnow
    sub ←
        or_raise (env.jwt_decode env.settings.jwt_secret now token)
          (http 401 "Invalid or expired token")
    tenant ← gets (λ db. find_tenant (or_else sub "") db.tenants)
    active_tenant tenant

  abbrev pub is_admin : Option String → Bool
  is_admin none = false
  is_admin (some key) = str_eq key env.settings.admin_api_key

  unfoldable pub require_admin : Option String → Exec (Unit {0})
  require_admin key = raise_if (not (is_admin key)) (http 401 "Invalid admin key")

  abbrev pub owned_by : Tenant → Option KycSession → Exec KycSession
  owned_by tenant none = raise (http 404 "Session not found")
  owned_by tenant (some s) =
      if str_eq s.tenant_id tenant.id then pure s else raise (http 404 "Session not found")

  unfoldable pub get_tenant_session : String → Tenant → Exec KycSession
  get_tenant_session sid tenant = do
    s ← gets (λ db. find_session sid db.sessions)
    owned_by tenant s

  unfoldable pub get_verification_session : String → Option String → Exec KycSession
  unfolding bearer
  get_verification_session sid authorization = do
    token ← bearer authorization
    found ← gets (λ db. find_session sid db.sessions)
    s ← or_raise found (http 404 "Session not found")
    raise_if (not (verify_secret env token s.access_token_hash)) (http 401 "Invalid session token")
    pure s

  -- The first address of the forwarding header, or the address of the client.
  abbrev pub client_ip : (forwarded host : Option String) → Option String
  client_ip forwarded host = elim (truthy forwarded) [
    | none ↦ host
    | some addresses ↦ some (env.strip (text (before_comma (chars addresses))))
  ]
