-- ===== src/Webhooks.antt =====
-- app/services/webhooks.py: the queue of outbound notifications.
pub mod Unique
pub mod Quiet
use ekyc.Prelude.{
  ℕ, ◌+◌, String, Bool, true, false, not, ◌&&◌, ◌||◌, Option, none, some, List, [], ◌∷◌, ◌++◌,
  first, if◌then◌else◌, str_eq,
}
use ekyc.Json.{Fields, dict, str}
use ekyc.Enums.{SessionStatus, session_status_str}
use ekyc.Models.{KycSession, Tenant, WebhookDelivery}
use ekyc.Env.{Env}
use ekyc.Audit.{optional_str}
use ekyc.Store.{find_tenant}
use ekyc.Exec.{
  Db, Dispatch, deliver_webhook, ok, Exec, pure, gets, modify, draw, utcnow, ◌>>=◌, ◌>>◌,
}

-- `_EVENT_BY_STATUS.get(str(status))`
abbrev pub event_by_status : SessionStatus → Option String
event_by_status SessionStatus.verified = some "KYC_VERIFIED"
event_by_status SessionStatus.rejected = some "KYC_REJECTED"
event_by_status SessionStatus.review = some "KYC_REVIEW_REQUIRED"
event_by_status SessionStatus.expired = some "KYC_EXPIRED"
event_by_status _ = none

module _ (env : Env) where
  pub build_payload : KycSession → String → ℕ → Fields
  build_payload s event_name now = dict (
      ("event", str event_name)
      ∷ ("session_id", str s.id)
      ∷ ("customer_reference", optional_str s.customer_reference)
      ∷ ("flow", str s.flow)
      ∷ ("status", str (session_status_str s.status))
      ∷ ("occurred_at", str (env.isoformat now))
      ∷ [])

-- A delivery of this event of this session that is waiting or done.
abbrev pub is_live : String → String → WebhookDelivery → Bool
is_live sid event d =
    str_eq d.session_id sid
    && (str_eq d.event event && (str_eq d.status "PENDING" || str_eq d.status "DELIVERED"))

-- `tenant.webhook_url`, where it is a text that `if` takes for true.
abbrev pub webhook_url_of : Option Tenant → Option (Tenant × String)
webhook_url_of none = none
webhook_url_of (some t) = elim t.webhook_url [
  | none ↦ none
  | some url ↦ if str_eq url "" then none else some (t, url)
]

module _ (env : Env) where
  abbrev pub new_delivery : KycSession → Tenant → String → String → ℕ → ℕ → WebhookDelivery
  new_delivery s t url event id now = record {
    id = id;
    tenant_id = t.id;
    session_id = s.id;
    event = event;
    url = url;
    payload = build_payload env s event now;
    status = "PENDING";
    attempts = 0;
    response_code = none;
    last_error = none;
    created_at = now;
    delivered_at = none;
  }

  -- `db.add(delivery)` and the dispatch that follows the commit.
  unfoldable pub add_delivery : WebhookDelivery → Exec (Unit {0})
  add_delivery d = modify (λ db. record db {
    deliveries = db.deliveries ++ d ∷ [];
    queue = db.queue ++ deliver_webhook d.id ∷ [];
  })

  -- The part behind the test for an existing delivery.
  unfoldable pub enqueue : KycSession → Tenant → String → String → Exec (Option WebhookDelivery)
  enqueue s t url event = do
    existing ← gets (λ db. first (is_live s.id event) db.deliveries)
    elim existing [
      | some d ↦ pure (some d)
      | none ↦ do
        id ← draw
        now ← utcnow
        let d = new_delivery s t url event id now
        add_delivery d
        pure (some d)
    ]

  -- Without a URL, or for a status that has no event, nothing is queued.
  abbrev pub enqueue_if :
      KycSession → Option (Tenant × String) → Option String → Exec (Option WebhookDelivery)
  enqueue_if s (some (t, url)) (some event) = enqueue s t url event
  enqueue_if s _ _ = pure none

  unfoldable pub queue_session_event : KycSession → Exec (Option WebhookDelivery)
  queue_session_event s = do
    target ← gets (λ db. webhook_url_of (find_tenant s.tenant_id db.tenants))
    enqueue_if s target (event_by_status s.status)
