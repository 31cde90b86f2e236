-- ===== src/Frame/Anchors.antt =====
-- The rows of `signed_documents` through calls, background work and purges.
pub mod Proofs
pub mod Logs
use ekyc.Prelude.{
  ℕ, ◌+◌, String, ◌≡◌, sym, ap, ◌∙◌, append-nil, append_assoc, List, [], ◌∷◌, ◌++◌, All,
}
use ekyc.Models.{AuditEvent, SignedDocument}
use ekyc.Env.{Env}
use ekyc.Exec.{Db, Exn, modify, utcnow, ◌>>=◌}
use ekyc.Exec.Keeps.{Keeps}
use ekyc.Audit.{NewEvent, record_event}
use ekyc.Store.{insert_signed}
use ekyc.Retention.{clear_origins, purge_expired_sessions}
use ekyc.Workers.Delivery.{save_delivery}
use ekyc.Api.Auth.{insert_tenant}
use ekyc.Evidence.Sealing.{IsSigned}
use ekyc.Frame.{TableFrame}
use ekyc.Frame.Logs.{log_tables}
use ekyc.Frame.PurgeOps.{purge_expired_sessions-Keeps}
use ekyc.Frame.Tasks.{Work, work_on, work_on-Keeps, sealed_tables}

module _ (env : Env) (describe : Exn → String) where
  -- The databases that work, purges and the passing of time lead to.
  pub data Lived (start : Db) : Db → Type 0 where
    born : Lived start start
    work : {db : Db} → Lived start db → (w : Work) → Lived start (work_on env describe w db)
    purge :
        {db : Db}
        → Lived start db
        → (batch_size : ℕ) → Lived start (purge_expired_sessions env batch_size db).1
    pause : {db : Db} → Lived start db → (t : ℕ) → Lived start (record db { now = db.now + t })

-- What work, the clearing of addresses and devices, and time keep.
pub Lived-Keeps :
    (env : Env) (describe : Exn → String) {P : Db → Type 0}
    → TableFrame env P
    → ((w : Work) (db : Db) → P db → P (work_on env describe w db))
    → ((sid : String) → Keeps P (modify (λ db. record db { events = clear_origins sid db.events })))
    → ((db : Db) (t : ℕ) → P db → P (record db { now = db.now + t }))
    → {start db : Db} → Lived env describe start db
    → P start
    → P db
Lived-Keeps env describe tables works clears later born h = h
Lived-Keeps env describe tables works clears later (work before w) h =
    works w _ (Lived-Keeps env describe tables works clears later before h)
Lived-Keeps env describe tables works clears later (purge before batch_size) h =
    (purge_expired_sessions-Keeps env tables clears batch_size).at _
      (Lived-Keeps env describe tables works clears later before h)
Lived-Keeps env describe tables works clears later (pause before t) h =
    later _ t (Lived-Keeps env describe tables works clears later before h)

module _ (env : Env) (old : List SignedDocument) where
  abbrev Grown : List SignedDocument → Type 0
  Grown rows = (added : List SignedDocument) × (rows ≡ old ++ added) × All (IsSigned env) added

  -- The rows are the old ones with signed rows added at their end.
  abbrev Anchored : Db → Type 0
  Anchored db = Grown db.signed_documents

  All-snoc :
      (rows : List SignedDocument) (d : SignedDocument)
      → All (IsSigned env) rows
      → IsSigned env d
      → All (IsSigned env) (rows ++ d ∷ [])
  All-snoc [] d h own = (own, tt)
  All-snoc (r ∷ rows) d h own = (h.0, All-snoc rows d h.1 own)

  record_event-Anchored : (n : NewEvent) → Keeps Anchored (record_event env n)
  unfolding record_event ◌>>=◌ utcnow
  record_event-Anchored n = record { at = λ db h. h }

  insert_signed-Anchored : (d : SignedDocument) → IsSigned env d → Keeps Anchored (insert_signed d)
  unfolding insert_signed modify
  insert_signed-Anchored d own = record {
    at = λ db h.
        let (added, e, signed) = h in
        (
          added ++ d ∷ [],
          ap (λ rows. rows ++ d ∷ []) e ∙ append_assoc old added (d ∷ []),
          All-snoc added d signed own,
        );
  }

  clear-Anchored :
      (sid : String)
      → Keeps Anchored (modify (λ db. record db { events = clear_origins sid db.events }))
  unfolding modify
  clear-Anchored sid = record { at = λ db h. h }

  row_tables : TableFrame env Anchored
  row_tables = log_tables env (λ es ds. Grown ds) record_event-Anchored

  module _ (describe : Exn → String) where
    work-Anchored : (w : Work) (db : Db) → Anchored db → Anchored (work_on env describe w db)
    unfolding save_delivery insert_tenant modify
    work-Anchored =
        work_on-Keeps env row_tables (λ d. record { at = λ db h. h })
          (λ t. record { at = λ db h. h }) (λ db n l h. h)
          (sealed_tables env row_tables insert_signed-Anchored) describe

    Lived-Anchored : {start db : Db} → Lived env describe start db → Anchored start → Anchored db
    Lived-Anchored = Lived-Keeps env describe row_tables work-Anchored clear-Anchored (λ db t h. h)

-- Through calls of `Request` and of the API, background work, purges and the passing of time, the rows of
-- `signed_documents` stay, unchanged and in their order, and every row that is added carries the platform's
-- signature over the bytes that its SHA-256 shows.
pub rows-Lived :
    (env : Env) (describe : Exn → String) {start db : Db}
    → Lived env describe start db
    → (added : List SignedDocument) × (db.signed_documents ≡ start.signed_documents ++ added)
      × All (IsSigned env) added
rows-Lived env describe {start} lived =
    Lived-Anchored env start.signed_documents describe lived
      ([], sym (append-nil start.signed_documents), tt)
