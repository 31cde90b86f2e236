-- ===== src/Webhooks/Quiet.antt =====
-- app/services/webhooks.py: what queueing an event leaves alone.
use ekyc.Prelude.{
  Bool, true, false, String, ◌≡◌, refl, Option, none, some, inl, inr, Option-cases, first,
}
use ekyc.Models.{KycSession, Tenant, WebhookDelivery}
use ekyc.Env.{Env}
use ekyc.Exec.{Db, Result, ok, pure, when, draw, utcnow, ◌>>=◌, ◌>>◌}
use ekyc.Store.{find_tenant}
use ekyc.Webhooks.{
  add_delivery, is_live, webhook_url_of, event_by_status, enqueue, enqueue_if, queue_session_event,
  new_delivery,
}

-- `m` returns, and leaves the sessions, the events and the clock as they are.
abbrev pub Quiet : Db → Result (Option WebhookDelivery) × Db → Type 0
Quiet db (r, db') =
    ((o : Option WebhookDelivery) × (r ≡ ok o))
    × (db'.sessions ≡ db.sessions)
    × (db'.events ≡ db.events)
    × (db'.now ≡ db.now)

module _ (env : Env) where
  enqueue-Quiet :
      (s : KycSession) (t : Tenant) (url event : String) (db : Db)
      → Quiet db (enqueue env s t url event db)
  unfolding enqueue ◌>>=◌ draw utcnow add_delivery
  enqueue-Quiet s t url event db = elim (Option-cases (first (is_live s.id event) db.deliveries)) [
    | inl new ↦
        rw new ((some (new_delivery env s t url event db.serial db.now), refl), refl, refl, refl)
    | inr (d, old) ↦ rw old ((some d, refl), refl, refl, refl)
  ]

  enqueue_if-Quiet :
      (s : KycSession) (target : Option (Tenant × String)) (event : Option String) (db : Db)
      → Quiet db (enqueue_if env s target event db)
  unfolding pure
  enqueue_if-Quiet s (some (t, url)) (some event) db = enqueue-Quiet s t url event db
  enqueue_if-Quiet s _ _ db = ((none, refl), refl, refl, refl)

  pub queue_session_event-Quiet :
      (s : KycSession) (db : Db) → Quiet db (queue_session_event env s db)
  unfolding queue_session_event ◌>>=◌
  queue_session_event-Quiet s db =
      enqueue_if-Quiet s (webhook_url_of (find_tenant s.tenant_id db.tenants))
        (event_by_status s.status) db

  -- The last step of the operations that close a session: the webhook under a test, then a result.
  pub webhook_then :
      {B : Type 0} (b : B) (test : Bool) (s : KycSession) (db : Db)
      → let (r, db') = (when test (queue_session_event env s >> pure tt) >> pure b) db in
        (r ≡ ok b) × (db'.sessions ≡ db.sessions) × (db'.events ≡ db.events)
  unfolding ◌>>=◌
  webhook_then b false s db = (refl, refl, refl)
  webhook_then b true s db =
      let quiet = queue_session_event-Quiet s db in rw quiet.0.1 (refl, quiet.1, quiet.2)

  pub webhook_last :
      {B : Type 0} (b : B) (s : KycSession) (db : Db)
      → let (r, db') = (queue_session_event env s >> pure b) db in
        (r ≡ ok b) × (db'.sessions ≡ db.sessions) × (db'.events ≡ db.events)
  unfolding ◌>>=◌
  webhook_last b s db =
      let quiet = queue_session_event-Quiet s db in rw quiet.0.1 (refl, quiet.1, quiet.2)
