-- ===== src/Frame/Appended.antt =====
-- The audit log through a history.
use ekyc.Prelude.{◌≡◌, sym, ◌∙◌, List, [], ◌∷◌, ◌++◌, append-nil, append_assoc, ap}
use ekyc.Models.{AuditEvent}
use ekyc.Env.{Env}
use ekyc.Exec.{Db, utcnow, ◌>>=◌}
use ekyc.Exec.Keeps.{Keeps}
use ekyc.Audit.{record_event, NewEvent, next_event}
use ekyc.Frame.{TableFrame}
use ekyc.Frame.Logs.{log_tables}
use ekyc.Frame.History.{Reachable, Reachable-Keeps}

-- The log starts with `old`.
abbrev pub StartsWith : List AuditEvent → Db → Type 0
StartsWith old db = (added : List AuditEvent) × (db.events ≡ old ++ added)

module _ (env : Env) (old : List AuditEvent) where
  record_event-StartsWith : (n : NewEvent) → Keeps (StartsWith old) (record_event env n)
  unfolding record_event ◌>>=◌ utcnow
  record_event-StartsWith n = record {
    at = λ db h.
        let (added, e) = h in
        let new = next_event env n db ∷ [] in
        (added ++ new, ap (λ es. es ++ new) e ∙ append_assoc old added new);
  }

  pub appended_tables : TableFrame env (StartsWith old)
  appended_tables =
      log_tables env (λ es ds. (added : List AuditEvent) × (es ≡ old ++ added))
        record_event-StartsWith

-- Whatever calls of `Request` are made, the audit events that were recorded stay, unchanged and in their order:
-- the log of a later database is the log of the earlier one with rows added at its end.
pub events-Reachable :
    (env : Env) {start db : Db}
    → Reachable env start db
    → (added : List AuditEvent) × (db.events ≡ start.events ++ added)
events-Reachable env {start} reached =
    Reachable-Keeps env (appended_tables env start.events) (λ db t h. h) reached
      ([], sym (append-nil start.events))
