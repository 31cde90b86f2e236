-- ===== src/Webhooks/Unique.antt =====
-- app/services/webhooks.py: the number of live deliveries of one event of a session.
use ekyc.Prelude.{
  ℕ, ◌≤◌, String, ◌≡◌, refl, Bool, true, Option, none, some, List, [], ◌∷◌, ◌++◌, arith, first,
  select, length, eq_iff, select-append, length-append, append-nil, Bool-cases, Option-cases, inl,
  inr,
}
use ekyc.Models.{KycSession, Tenant, WebhookDelivery}
use ekyc.Env.{Env}
use ekyc.Exec.{Db, draw, utcnow, ◌>>=◌}
use ekyc.Exec.Keeps.{Keeps, Keeps-pure}
use ekyc.Store.{find_tenant}
use ekyc.Webhooks.{
  add_delivery, is_live, webhook_url_of, event_by_status, enqueue, enqueue_if, queue_session_event,
}

abbrev pub live_count : String → String → List WebhookDelivery → ℕ
live_count sid event ds = length (select (is_live sid event) ds)

abbrev pub UniqueDeliveries : Db → Type 0
UniqueDeliveries db = (sid event : String) → live_count sid event db.deliveries ≤ 1

first-none :
    {A : Type 0} (p : A → Bool) (xs : List A) → first p xs ≡ none → length (select p xs) ≡ 0
first-none p [] h = refl
first-none p (x ∷ xs) h = ground (arith, first-none p xs)

is_live_keys :
    (sid event : String) (d : WebhookDelivery)
    → is_live sid event d ≡ true
    → (d.session_id ≡ sid) × (d.event ≡ event)
is_live_keys sid event d h = ground (arith, eq_iff d.session_id sid, eq_iff d.event event)

-- Adding a delivery where none is live.
live_count-snoc :
    (sid event : String) (ds : List WebhookDelivery) (d : WebhookDelivery)
    → ((d.session_id ≡ sid) → (d.event ≡ event) → live_count sid event ds ≡ 0)
    → live_count sid event ds ≤ 1
    → live_count sid event (ds ++ d ∷ []) ≤ 1
live_count-snoc sid event ds d fresh h = rw select-append (elim (Bool-cases (is_live sid event d)) [
  | inl live ↦
      let (p, q) = is_live_keys sid event d live in
      rw live (omega (arith, length-append (select (is_live sid event) ds) (d ∷ []), fresh p q))
  | inr dead ↦ rw (dead, append-nil) h
])

module _ (env : Env) where
  pub enqueue-Unique :
      (s : KycSession) (t : Tenant) (url event : String)
      → Keeps UniqueDeliveries (enqueue env s t url event)
  unfolding enqueue ◌>>=◌ draw utcnow add_delivery
  enqueue-Unique s t url event = record {
    at = λ db h sid' event'. elim (Option-cases (first (is_live s.id event) db.deliveries)) [
      | inl new ↦ rw new (
          live_count-snoc sid' event' db.deliveries _
            (λ p q. rw (← p, ← q) (first-none (is_live s.id event) db.deliveries new))
            (h sid' event'))
      | inr (d, old) ↦ rw old (h sid' event')
    ];
  }

  enqueue_if-Unique :
      (s : KycSession) (target : Option (Tenant × String)) (event : Option String)
      → Keeps UniqueDeliveries (enqueue_if env s target event)
  enqueue_if-Unique s (some (t, url)) (some event) = enqueue-Unique s t url event
  enqueue_if-Unique s _ _ = Keeps-pure none

  -- Queueing an event keeps every session free of two waiting or delivered webhooks of one event.
  pub queue_session_event-Unique :
      (s : KycSession) → Keeps UniqueDeliveries (queue_session_event env s)
  unfolding queue_session_event ◌>>=◌
  queue_session_event-Unique s = record {
    at = λ db h.
        (enqueue_if-Unique s (webhook_url_of (find_tenant s.tenant_id db.tenants))
            (event_by_status s.status)).at
          db h;
  }
