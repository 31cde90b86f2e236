-- ===== src/Frame/Anchors/Logs.antt =====
-- The audit log through calls, background work and purges.
use ekyc.Prelude.{
  String, ◌≡◌, refl, sym, ap, ◌∙◌, append-nil, append_assoc, List, [], ◌∷◌, ◌++◌, map, none, str_eq,
  Bool-cases, inl, inr,
}
use ekyc.Models.{AuditEvent}
use ekyc.Env.{Env}
use ekyc.Exec.{Db, Exn, modify, utcnow, ◌>>=◌}
use ekyc.Exec.Keeps.{Keeps}
use ekyc.Audit.{NewEvent, record_event, next_event}
use ekyc.Store.{insert_signed}
use ekyc.Retention.{clear_origins}
use ekyc.Workers.Delivery.{save_delivery}
use ekyc.Api.Auth.{insert_tenant}
use ekyc.Frame.{TableFrame}
use ekyc.Frame.Logs.{log_tables}
use ekyc.Frame.Tasks.{Work, work_on, work_on-Keeps, sealed_tables}
use ekyc.Frame.Anchors.{Lived, Lived-Keeps}

-- An event without its address and device.
abbrev pub bare : AuditEvent → AuditEvent
bare e = record e { ip = none; user_agent = none }

bare-append : (es fs : List AuditEvent) → map bare (es ++ fs) ≡ map bare es ++ map bare fs
bare-append [] fs = refl
bare-append (e ∷ es) fs = ap (λ rows. bare e ∷ rows) (bare-append es fs)

bare-clear_origins :
    (sid : String) (es : List AuditEvent) → map bare (clear_origins sid es) ≡ map bare es
bare-clear_origins sid [] = refl
bare-clear_origins sid (e ∷ es) = elim (Bool-cases (str_eq e.session_id sid)) [
  | inl own ↦ rw own (ap (λ rows. bare e ∷ rows) (bare-clear_origins sid es))
  | inr other ↦ rw other (ap (λ rows. bare e ∷ rows) (bare-clear_origins sid es))
]

module _ (env : Env) (old : List AuditEvent) where
  -- The log starts with the old events, but for addresses and devices.
  abbrev Extends : List AuditEvent → Type 0
  Extends es = (added : List AuditEvent) × (map bare es ≡ map bare old ++ map bare added)

  abbrev Extended : Db → Type 0
  Extended db = Extends db.events

  record_event-Extended : (n : NewEvent) → Keeps Extended (record_event env n)
  unfolding record_event ◌>>=◌ utcnow
  record_event-Extended n = record {
    at = λ db h.
        let (added, e) = h in
        let new = next_event env n db ∷ [] in
        (
          added ++ new,
          bare-append db.events new
              ∙ ap (λ rows. rows ++ map bare new) e
              ∙ append_assoc (map bare old) (map bare added) (map bare new)
              ∙ ap (λ rows. map bare old ++ rows) (sym (bare-append added new)),
        );
  }

  clear-Extended :
      (sid : String)
      → Keeps Extended (modify (λ db. record db { events = clear_origins sid db.events }))
  unfolding modify
  clear-Extended sid = record { at = λ db h. (h.0, bare-clear_origins sid db.events ∙ h.1) }

  log_frame : TableFrame env Extended
  log_frame = log_tables env (λ es ds. Extends es) record_event-Extended

  work-Extended :
      (describe : Exn → String) (w : Work) (db : Db)
      → Extended db
      → Extended (work_on env describe w db)
  unfolding save_delivery insert_tenant insert_signed modify
  work-Extended =
      work_on-Keeps env log_frame (λ d. record { at = λ db h. h }) (λ t. record { at = λ db h. h })
        (λ db n l h. h) (sealed_tables env log_frame (λ d own. record { at = λ db h. h }))

-- Whatever calls of `Request` and of the API are made and whatever background work and purges run, rolled back or not,
-- the audit events that were recorded stay in their order, each unchanged but for the address and the device, which a
-- purge clears: up to these two fields, the log of a later database is the log of the earlier one with rows added at
-- its end.
pub events-Lived :
    (env : Env) (describe : Exn → String) {start db : Db}
    → Lived env describe start db
    → (added : List AuditEvent) × (map bare db.events ≡ map bare start.events ++ map bare added)
events-Lived env describe {start} lived =
    Lived-Keeps env describe (log_frame env start.events) (work-Extended env start.events describe)
      (clear-Extended env start.events) (λ db t h. h) lived ([], sym (append-nil _))
