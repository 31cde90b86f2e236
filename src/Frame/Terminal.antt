-- ===== src/Frame/Terminal.antt =====
-- A terminal status through a history: the elementary writes, and the rules for reading a row.
pub mod Calls
use ekyc.Prelude.{
  ℕ, String, ◌≡◌, refl, sym, ap, ◌∙◌, Bool-cases, Option-cases, inl, inr, true, Option, none, some,
  List, ◌++◌, [], ◌∷◌, or_else, str_eq, eq_iff, first,
}
use mathlib.Core.Path.{subst}
use ekyc.Enums.{SessionStatus}
use ekyc.Models.{KycSession, Tenant, OtpChallenge, WebhookDelivery}
use ekyc.Env.{Env}
use ekyc.Exec.{Db, Limiter, Exec, draw, utcnow, modify, ◌>>=◌}
use ekyc.Exec.Keeps.{Keeps, Keeps-pure, keeps_rules}
use ekyc.Audit.{NewEvent, record_event}
use ekyc.Store.{
  find_session, find_session-touch, find_session-replace, find_session-append, find_session-id,
  touch, save_session, insert_session, load_session, lock_session, touch_session, modify_limiter,
  modify_challenges,
}
use ekyc.Frame.Logs.{queue_session_event-Keeps}
use ekyc.Webhooks.{is_live, enqueue, enqueue_if, queue_session_event, add_delivery}

-- The session is stored with this status.
abbrev pub HasStatus : String → SessionStatus → Db → Type 0
HasStatus sid st db = (t : KycSession) × (find_session sid db.sessions ≡ some t) × (t.status ≡ st)

-- A row that, if it is the session's, has the status.
abbrev pub Own : String → SessionStatus → KycSession → Type 0
Own sid st s = s.id ≡ sid → s.status ≡ st

module _ (sid : String) (st : SessionStatus) where
  touch-HasStatus :
      (id : String) (now : ℕ) (db : Db)
      → HasStatus sid st db
      → HasStatus sid st (record db { sessions = touch id now db.sessions })
  touch-HasStatus id now db (t, f, e) = elim (Bool-cases (str_eq id sid)) [
    | inl own ↦ (record t { updated_at = now }, rw (find_session-touch, own, f) refl, e)
    | inr other ↦ (t, rw (find_session-touch, other, f) refl, e)
  ]

  pub save_session-HasStatus :
      (s : KycSession) → Own sid st s → Keeps (HasStatus sid st) (save_session s)
  unfolding save_session modify
  save_session-HasStatus s own = record {
    at = λ db h.
        let (t, f, e) = h in
        elim (Bool-cases (str_eq s.id sid)) [
          | inl same ↦ (s, rw (find_session-replace, same, f) refl, own ((eq_iff s.id sid).0 same))
          | inr other ↦ (t, rw (find_session-replace, other, f) refl, e)
        ];
  }

  pub insert_session-HasStatus : (s : KycSession) → Keeps (HasStatus sid st) (insert_session s)
  unfolding insert_session modify
  insert_session-HasStatus s = record {
    at = λ db h. let (t, f, e) = h in (t, rw (find_session-append, f) refl, e);
  }

  -- What is done with a row that was read may count on its id and its status.
  module _ {B : Type 0} (id : String) (f : KycSession → Exec B)
      (then : (s : KycSession) → s.id ≡ id → Own sid st s → Keeps (HasStatus sid st) (f s)) where
    pub Keeps-load : Keeps (HasStatus sid st) (load_session id >>= f)
    unfolding load_session ◌>>=◌
    Keeps-load = record {
      at = λ db h. elim (Option-cases (find_session id db.sessions)) [
        | inl missing ↦ rw missing h
        | inr (s, found) ↦
            let (t, f', e) = h in
            let known = find_session-id id s db.sessions found in
            rw found (
              (then s known λ p.
                  ap (λ o. (or_else o t).status)
                    (sym (subst (λ i. find_session i db.sessions ≡ some s) (sym known ∙ p) found)
                      ∙ f')
                  ∙ e).at
                db h)
      ];
    }

    pub Keeps-lock : Keeps (HasStatus sid st) (lock_session id >>= f)
    unfolding lock_session load_session touch_session utcnow ◌>>=◌
    Keeps-lock = record {
      at = λ db h.
          Keeps-load.at (record db { sessions = touch id db.now db.sessions })
            (touch-HasStatus id db.now db h);
    }

  pub draw-HasStatus : Keeps (HasStatus sid st) draw
  unfolding draw
  draw-HasStatus = record { at = λ db h. h }

  module _ (env : Env) where
    add_delivery-HasStatus : (d : WebhookDelivery) → Keeps (HasStatus sid st) (add_delivery env d)
    unfolding add_delivery modify
    add_delivery-HasStatus d = record { at = λ db h. h }

    pub queue_session_event-HasStatus :
        (s : KycSession) → Keeps (HasStatus sid st) (queue_session_event env s)
    queue_session_event-HasStatus =
        queue_session_event-Keeps env (HasStatus sid st) draw-HasStatus add_delivery-HasStatus

    pub record_event-HasStatus : (n : NewEvent) → Keeps (HasStatus sid st) (record_event env n)
    unfolding record_event ◌>>=◌ utcnow
    record_event-HasStatus n = record { at = λ db h. h }

  pub modify_limiter-HasStatus :
      (f : Limiter → Limiter) → Keeps (HasStatus sid st) (modify_limiter f)
  unfolding modify_limiter modify
  modify_limiter-HasStatus f = record { at = λ db h. h }

  pub modify_challenges-HasStatus :
      (f : List OtpChallenge → List OtpChallenge) → Keeps (HasStatus sid st) (modify_challenges f)
  unfolding modify_challenges modify
  modify_challenges-HasStatus f = record { at = λ db h. h }
