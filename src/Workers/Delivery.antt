-- ===== src/Workers/Delivery.antt =====
-- app/workers/tasks.py, `deliver_webhook`; signing in app/services/webhooks.py and
-- app/core/security.py.
use ekyc.Prelude.{
  ℕ, ◌+◌, String, concat, Bool, true, false, not, ◌&&◌, Option, none, some, List, [], ◌∷◌, leb, ltb,
  ◌==◌, if◌then◌else◌, str_eq,
}
use ekyc.Json.{Json, Fields, dict, str, int, obj, null}
use ekyc.Enums.{AuditEventType}
use ekyc.Models.{Tenant, WebhookDelivery}
use ekyc.Env.{Env, HttpReply, no_response, response}
use ekyc.Exec.{
  Db, Exn, Result, Exec, pure, raise, gets, modify, when, draw, utcnow, transaction, http_error,
  ◌>>=◌, ◌>>◌,
}
use ekyc.Orchestrator.{truthy}
use ekyc.Audit.{NewEvent, system_event, record_event, canonical_json}
use ekyc.Store.{find_tenant}
use ekyc.Workers.{retrying}

abbrev pub find_delivery : ℕ → List WebhookDelivery → Option WebhookDelivery
find_delivery id [] = none
find_delivery id (d ∷ rest) = if d.id == id then some d else find_delivery id rest

-- `delivery.… = …` and the flush.
abbrev pub replace_delivery : WebhookDelivery → List WebhookDelivery → List WebhookDelivery
replace_delivery d [] = []
replace_delivery d (e ∷ rest) = (if e.id == d.id then d else e) ∷ replace_delivery d rest

unfoldable pub save_delivery : WebhookDelivery → Exec (Unit {0})
save_delivery d = modify (λ db. record db { deliveries = replace_delivery d db.deliveries })

-- A status code that `raise_for_status` lets pass.
abbrev pub is_success : ℕ → Bool
is_success code = leb 200 code && ltb code 300

abbrev pub reply_code : HttpReply → Option ℕ → Option ℕ
reply_code no_response old = old
reply_code (response code body) old = some code

abbrev pub secret_of : Option Tenant → Option String
secret_of none = none
secret_of (some t) = truthy t.webhook_secret

-- The retry options of the task: an HTTP error alone runs it again.
abbrev pub is_final : Exn → Bool
is_final Exn.http_error = false
is_final _ = true

module _ (env : Env) where
  -- `sign_webhook`, on the text whose encoding is the body.
  unfoldable pub sign_webhook : String → String → String → String
  sign_webhook secret timestamp body = env.hmac_sha256 secret (concat timestamp (concat "." body))

  abbrev pub signature_headers : Option String → ℕ → String → List (String × String)
  signature_headers none now body = []
  signature_headers (some secret) now body =
      ("X-EKYC-Timestamp", env.str_of now)
      ∷ ("X-EKYC-Signature", concat "sha256=" (sign_webhook secret (env.str_of now) body))
      ∷ []

  abbrev pub signed_headers : Option String → ℕ → String → String → List (String × String)
  signed_headers secret now body event =
      ("Content-Type", "application/json")
      ∷ ("X-EKYC-Event", event)
      ∷ signature_headers secret now body

  -- `serialize`, before it is encoded.
  abbrev pub serialize : Fields → String
  serialize payload = canonical_json env (obj payload)

  abbrev pub failure_event : WebhookDelivery → NewEvent
  failure_event d =
      system_event d.tenant_id d.session_id AuditEventType.webhook_failed
        (dict (("event", str d.event) ∷ ("attempts", int d.attempts) ∷ []))

  abbrev pub code_json : Option ℕ → Json
  code_json none = null
  code_json (some code) = int code

  abbrev pub success_event : WebhookDelivery → NewEvent
  success_event d =
      system_event d.tenant_id d.session_id AuditEventType.webhook_delivered
        (dict (("event", str d.event) ∷ ("response_code", code_json d.response_code) ∷ []))

  -- `except httpx.HTTPError`; the text of the exception is not modelled.
  unfoldable pub fail_delivery : WebhookDelivery → Exec String
  fail_delivery d = do
    save_delivery (record d { status = "FAILED"; last_error = some "HTTPError" })
    when (not (str_eq d.session_id "")) (record_event env (failure_event d) >> pure tt)
    raise http_error

  unfoldable pub complete_delivery : WebhookDelivery → Exec String
  complete_delivery d = do
    now ← utcnow
    save_delivery (record d { status = "DELIVERED"; delivered_at = some now })
    when (not (str_eq d.session_id "")) (record_event env (success_event d) >> pure tt)
    pure "DELIVERED"

  abbrev pub settle_delivery : WebhookDelivery → HttpReply → Exec String
  settle_delivery d no_response = fail_delivery d
  settle_delivery d (response code body) =
      if is_success code then complete_delivery d else fail_delivery d

  -- The row with the attempt counted and the status code of the reply.
  abbrev pub attempted : WebhookDelivery → HttpReply → WebhookDelivery
  attempted d reply = record d {
    attempts = d.attempts + 1;
    response_code = reply_code reply d.response_code;
  }

  unfoldable pub post_delivery : WebhookDelivery → Exec String
  post_delivery d = do
    tenant ← gets (λ db. find_tenant d.tenant_id db.tenants)
    now ← utcnow
    n ← draw
    let body = serialize d.payload
    let reply =
        env.http_post n d.url (env.utf8 body) (signed_headers (secret_of tenant) now body d.event)
    settle_delivery (attempted d reply) reply

  abbrev pub delivery_task : Option WebhookDelivery → Exec String
  delivery_task none = pure "MISSING_DELIVERY"
  delivery_task (some d) = if str_eq d.status "DELIVERED" then pure "DELIVERED" else post_delivery d

  -- One execution of `deliver_webhook`.
  unfoldable pub deliver_webhook : ℕ → Exec String
  deliver_webhook id =
      transaction do d ← gets (λ db. find_delivery id db.deliveries); delivery_task d

  abbrev pub run_delivery : ℕ → Db → Result String × Db
  run_delivery id = retrying env.settings.webhook_max_attempts is_final (deliver_webhook id)
