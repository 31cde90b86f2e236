-- ===== src/Frame/Logs.antt =====
-- Invariants that speak of the audit log and of the signed documents only: every other elementary write
-- keeps them.
use ekyc.Prelude.{String, Option, none, some, Option-cases, inl, inr, first, List}
use ekyc.Models.{KycSession, Tenant, AuditEvent, SignedDocument, WebhookDelivery}
use ekyc.Env.{Env}
use ekyc.Exec.{Db, draw, utcnow, modify, ◌>>=◌}
use ekyc.Exec.Keeps.{Keeps, Keeps-pure, keeps_rules}
use ekyc.Audit.{record_event, NewEvent}
use ekyc.Store.{
  save_session, touch_session, insert_session, modify_challenges, modify_documents,
  modify_artifacts, modify_biometrics, modify_limiter, push_task,
}
use ekyc.Webhooks.{is_live, enqueue, enqueue_if, queue_session_event, add_delivery}
use ekyc.Frame.{Frame, TableFrame}

-- `queue_session_event`, under an invariant that a new delivery keeps.
module _ (env : Env) (P : Db → Type 0) (keeps_draw : Keeps P draw)
    (keeps_add : (d : WebhookDelivery) → Keeps P (add_delivery env d)) where
  enqueue-Keeps :
      (s : KycSession) (t : Tenant) (url event : String) → Keeps P (enqueue env s t url event)
  unfolding enqueue ◌>>=◌ utcnow draw add_delivery
  enqueue-Keeps s t url event = record {
    at = λ db h. elim (Option-cases (first (is_live s.id event) db.deliveries)) [
      | inl new ↦ rw new ((keeps_add _).at (draw db).1 (keeps_draw.at db h))
      | inr (d, old) ↦ rw old h
    ];
  }

  enqueue_if-Keeps :
      (s : KycSession) (target : Option (Tenant × String)) (event : Option String)
      → Keeps P (enqueue_if env s target event)
  enqueue_if-Keeps s (some (t, url)) (some event) = enqueue-Keeps s t url event
  enqueue_if-Keeps s _ _ = Keeps-pure none

  pub queue_session_event-Keeps : (s : KycSession) → Keeps P (queue_session_event env s)
  unfolding queue_session_event
  queue_session_event-Keeps s = search (keeps_rules, enqueue_if-Keeps)

module _ (env : Env) (Q : List AuditEvent → List SignedDocument → Type 0) where
  -- The invariant of a database.
  abbrev pub Logged : Db → Type 0
  Logged db = Q db.events db.signed_documents

  draw-Logged : Keeps Logged draw
  unfolding draw
  draw-Logged = record { at = λ db h. h }

  add_delivery-Logged : (d : WebhookDelivery) → Keeps Logged (add_delivery env d)
  unfolding add_delivery modify
  add_delivery-Logged d = record { at = λ db h. h }

  module _ (keeps_event : (n : NewEvent) → Keeps Logged (record_event env n)) where
    log_frame : Frame env Logged
    unfolding save_session touch_session insert_session modify_limiter push_task draw modify
    log_frame = record {
      keeps_event = keeps_event;
      keeps_webhook = queue_session_event-Keeps env Logged draw-Logged add_delivery-Logged;
      keeps_save = λ s. record { at = λ db h. h };
      keeps_touch = λ id now. record { at = λ db h. h };
      keeps_insert = λ s. record { at = λ db h. h };
      keeps_limiter = λ f. record { at = λ db h. h };
      keeps_task = λ d. record { at = λ db h. h };
      keeps_draw = record { at = λ db h. h };
    }

    pub log_tables : TableFrame env Logged
    unfolding modify_challenges modify_documents modify_artifacts modify_biometrics modify
    log_tables = record {
      frame = log_frame;
      keeps_challenges = λ f. record { at = λ db h. h };
      keeps_documents = λ f. record { at = λ db h. h };
      keeps_artifacts = λ f. record { at = λ db h. h };
      keeps_biometrics = λ f. record { at = λ db h. h };
    }
