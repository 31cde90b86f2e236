-- ===== src/Api/Sessions.antt =====
-- app/api/v1/sessions.py: a tenant opens a session and reads its audit log. The texts of the exceptions
-- are a parameter, and the URL in the answer is its token.
use ekyc.Prelude.{ℕ, String, Option, some, List}
use ekyc.Json.{Fields}
use ekyc.Enums.{SessionStatus}
use ekyc.Models.{KycSession, Tenant, AuditEvent}
use ekyc.Env.{Env}
use ekyc.Exec.{Exn, http, Exec, pure, lift, transaction, ◌>>=◌, ◌>>◌}
use ekyc.Audit.{Verification, verify_chain, list_events}
use ekyc.Storage.{get_vault}
use ekyc.Signatures.{resolve_signer}
use ekyc.Tsa.Authorities.{resolve_policy}
use ekyc.Kyc.Session
use ekyc.Api.{raising_as}

-- `SessionCreateRequest`
pub record SessionCreate : Type 0 where
  pub flow : String
  pub customer_reference : Option String
  pub metadata : Fields
  pub jurisdiction : Option String

-- `SessionCreateResponse`
pub record SessionCreated : Type 0 where
  pub session_id : String
  pub status : SessionStatus
  pub flow : String
  pub jurisdiction : String
  pub token : String
  pub expires_at : ℕ

abbrev pub creation_error : (Exn → String) → Exn → Exn
creation_error describe Exn.unknown_flow = http 400 (describe Exn.unknown_flow)
creation_error describe Exn.unknown_jurisdiction = http 400 (describe Exn.unknown_jurisdiction)
creation_error describe Exn.unknown_vault = http 400 (describe Exn.unknown_vault)
creation_error describe Exn.unknown_tsa = http 400 (describe Exn.unknown_tsa)
creation_error describe Exn.unknown_signer = http 400 (describe Exn.unknown_signer)
creation_error describe Exn.permission_error = http 403 (describe Exn.permission_error)
creation_error describe e = e

-- `AuditExportResponse`
pub record AuditExport : Type 0 where
  pub session_id : String
  pub integrity : Verification
  pub events : List AuditEvent

module _ (env : Env) where
  -- The session, its vault, its timestamp authority and its signer, or a failure of one of them.
  abbrev pub open_session : Tenant → SessionCreate → Option String → Exec (KycSession × String)
  open_session tenant request ip = do
    (s, token) ←
        Session.create_session env tenant request.flow request.customer_reference request.metadata
          request.jurisdiction ip
    lift (get_vault env (some s.vault_profile))
    lift (resolve_policy env.settings s.tsa_policy)
    lift (resolve_signer s.signature_level)
    pure (s, token)

  abbrev pub created_response : KycSession × String → SessionCreated
  created_response (s, token) = record {
    session_id = s.id;
    status = s.status;
    flow = s.flow;
    jurisdiction = s.jurisdiction;
    token = token;
    expires_at = s.expires_at;
  }

  unfoldable pub create_session :
      (Exn → String) → Tenant → SessionCreate → Option String → Exec SessionCreated
  create_session describe tenant request ip = do
    created ← transaction (raising_as (creation_error describe) (open_session tenant request ip))
    pure (created_response created)

  unfoldable pub export_audit : KycSession → Exec AuditExport
  export_audit s = do
    events ← list_events env s.id
    integrity ← verify_chain env s.id
    pure (record { session_id = s.id; integrity = integrity; events = events })
