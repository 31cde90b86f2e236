-- ===== src/Kyc/Decide.antt =====
-- app/services/kyc.py: checks, decisions and their corrections.
use ekyc.Prelude.{
  ℕ, String, Bool, true, false, not, ◌&&◌, ◌||◌, Option, none, some, [], ◌∷◌, ltb, if◌then◌else◌,
  or_else,
}
use ekyc.Json.{dict, str, float, strings}
use ekyc.Enums.{
  SessionStatus, CheckStatus, Step, AuditEventType, is_terminal, session_status_eq,
  session_status_str, step_eq,
}
use ekyc.Models.{KycSession, StepInternal}
use ekyc.Env.{Env}
use ekyc.Exec.{value_error, Exec, pure, lift, raise_if, when, utcnow, ◌>>=◌, ◌>>◌}
use ekyc.Policy.{FlowPolicy}
use ekyc.Decision.{Decision, decide}
use ekyc.Audit.{NewEvent, system_event, record_event}
use ekyc.Kyc.Session.{policy_of}
use ekyc.Store.{save_session, lock_session}
use ekyc.Webhooks.{queue_session_event}

-- `checks[step] = status`
abbrev pub with_check : KycSession → Step → CheckStatus → KycSession
with_check s step status = record s {
  checks = λ j. if step_eq step j then some status else s.checks j;
}

-- `internal[step] = details`, if details are given
abbrev pub with_details : KycSession → Step → Option StepInternal → KycSession
with_details s step none = s
with_details s step (some d) = record s {
  internal = record (s.internal) {
    by_step = λ j. if step_eq step j then some d else s.internal.by_step j;
  };
}

abbrev pub started : SessionStatus → SessionStatus
started SessionStatus.created = SessionStatus.in_progress
started status = status

-- What `set_check` writes.
abbrev pub checked : KycSession → Step → CheckStatus → Option StepInternal → KycSession
checked s step status details =
    let t = with_details (with_check s step status) step details in
    record t { status = started t.status }

unfoldable pub set_check : String → Step → CheckStatus → Option StepInternal → Exec (Unit {0})
set_check sid step status details = do
  s ← lock_session sid
  save_session (checked s step status details)

-- `_ALLOWED_TRANSITIONS` and `_transition_allowed`
abbrev pub allowed_from : SessionStatus → SessionStatus → Bool
allowed_from SessionStatus.created SessionStatus.created = true
allowed_from SessionStatus.created SessionStatus.in_progress = true
allowed_from SessionStatus.created SessionStatus.expired = true
allowed_from SessionStatus.in_progress SessionStatus.created = false
allowed_from SessionStatus.in_progress _ = true
allowed_from SessionStatus.processing SessionStatus.created = false
allowed_from SessionStatus.processing SessionStatus.processing = false
allowed_from SessionStatus.processing _ = true
allowed_from _ _ = false

unfoldable pub transition_allowed : SessionStatus → SessionStatus → Bool
transition_allowed current target =
    if is_terminal current then session_status_eq current target else allowed_from current target

module _ (env : Env) where
  abbrev pub decision_of : FlowPolicy → KycSession → Decision
  decision_of policy s = decide env.floats env.settings policy s.checks s.internal

  pub blocked_event : KycSession → Decision → NewEvent
  blocked_event s d = system_event s.tenant_id s.id AuditEventType.decision_blocked (
      dict (
        ("current_status", str (session_status_str s.status))
        ∷ ("attempted_status", str (session_status_str d.status))
        ∷ ("reasons", strings d.reasons)
        ∷ []))

  pub decision_event : KycSession → Decision → NewEvent
  decision_event s d = system_event s.tenant_id s.id AuditEventType.kyc_decision (
      dict (
        ("status", str (session_status_str d.status))
        ∷ ("reasons", strings d.reasons)
        ∷ ("score", float d.score)
        ∷ ("risk_level", str d.risk_level)
        ∷ []))

  -- `session.completed_at` after the assignment under its test.
  abbrev pub completion : Bool → Option ℕ → ℕ → Option ℕ
  completion true none now = some now
  completion _ at now = at

  -- The fields that `evaluate` writes when the transition is allowed.
  abbrev pub decided : KycSession → Decision → ℕ → KycSession
  decided s d now = record s {
    status = d.status;
    reasons = if d.completed then d.reasons else [];
    updated_at = now;
    internal = record (s.internal) {
      risk = some (record { score = d.score; level = d.risk_level });
    };
    completed_at = completion d.completed s.completed_at now;
  }

  -- Whether the KYC_DECISION event is recorded.
  abbrev pub closes_now : Decision → Option ℕ → Bool
  closes_now d none = d.completed
  closes_now d (some at) = false

  -- `evaluate` on a locked row whose transition is refused.
  unfoldable pub block : KycSession → Decision → Exec SessionStatus
  unfolding blocked_event
  block s d = do record_event env (blocked_event s d); pure s.status

  -- `evaluate` on a locked row whose transition is allowed.
  unfoldable pub close : KycSession → Decision → Exec SessionStatus
  unfolding decision_event
  close s d = do
    now ← utcnow
    save_session (decided s d now)
    when (closes_now d s.completed_at) (record_event env (decision_event s d) >> pure tt)
    when (d.completed && not (session_status_eq s.status d.status))
        (queue_session_event env (decided s d now) >> pure tt)
    pure d.status

  unfoldable pub evaluate : String → Exec SessionStatus
  unfolding policy_of transition_allowed
  evaluate sid = do
    s ← lock_session sid
    policy ← lift (policy_of s)
    let d = decision_of policy s
    if transition_allowed s.status d.status then close s d else block s d

  pub override_event : KycSession → SessionStatus → String → String → NewEvent
  override_event s target reason actor = record {
    tenant_id = s.tenant_id;
    session_id = s.id;
    event_type = AuditEventType.decision_overridden;
    payload = dict (
        ("previous_status", str (session_status_str s.status))
        ∷ ("status", str (session_status_str target))
        ∷ ("reason", str reason)
        ∷ []);
    actor = actor;
    ip = none;
    user_agent = none;
    document_hash = none;
  }

  -- The fields that `override_decision` writes.
  abbrev pub overridden : KycSession → SessionStatus → ℕ → KycSession
  overridden s target now = record s {
    status = target;
    completed_at = some (or_else s.completed_at now);
    updated_at = now;
  }

  unfoldable pub override_decision :
      String → SessionStatus → (reason actor : String) → Exec SessionStatus
  unfolding override_event
  override_decision sid target reason actor = do
    raise_if (not (is_terminal target)) value_error
    s ← lock_session sid
    now ← utcnow
    save_session (overridden s target now)
    record_event env (override_event s target reason actor)
    when (not (session_status_eq s.status target))
        (queue_session_event env (overridden s target now) >> pure tt)
    pure target

  pub expired_event : KycSession → NewEvent
  expired_event s =
      system_event s.tenant_id s.id AuditEventType.session_expired
        (dict (("expired_at", str (env.isoformat s.expires_at)) ∷ []))

  -- The fields that `expire` writes.
  abbrev pub as_expired : KycSession → ℕ → KycSession
  as_expired s now = record s { status = SessionStatus.expired; updated_at = now }

  -- `expire` on a locked row that is open and past its expiry.
  unfoldable pub close_expired : KycSession → ℕ → Exec (Unit {0})
  unfolding expired_event
  close_expired s now = do
    save_session (as_expired s now)
    record_event env (expired_event s)
    queue_session_event env (as_expired s now)
    pure tt

  unfoldable pub expire : String → Exec (Unit {0})
  expire sid = do
    s ← lock_session sid
    now ← utcnow
    if is_terminal s.status || ltb now s.expires_at then pure tt else close_expired s now
