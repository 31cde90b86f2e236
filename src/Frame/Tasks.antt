-- ===== src/Frame/Tasks.antt =====
-- Histories of the calls of the API (app/api/v1), of the services, and of the background work of
-- app/workers/tasks.py.
pub mod Terminal
use ekyc.Prelude.{Bool, ℕ, ◌+◌, String, ◌≡◌, Option, none, length, List, [], ◌++◌, append-nil, sym}
use ekyc.Models.{KycSession, Tenant, WebhookDelivery, AuditEvent, SignedDocument}
use ekyc.Env.{Env, Bytes}
use ekyc.Exec.{Db, Limiter, Exn, ok, draw, modify}
use ekyc.Exec.Keeps.{Keeps, Rollback, keeps_rules}
use ekyc.Audit.{events_of, verify_chain, valid}
use ekyc.Audit.Chain.{AllChained, head_hash}
use ekyc.Audit.Verify.{verify_chain-AllChained}
use ekyc.Store.{lock_session, save_session, insert_signed}
use ekyc.Evidence.{seal_document}
use ekyc.Evidence.Sealing.{IsSigned}
use ekyc.Frame.DocumentOps.{seal_document-Keeps, kyc_certificate-Keeps, seal_contract-Keeps}
use ekyc.Api.Documents.{kyc_certificate, seal_contract, ContractRequest}
use ekyc.Workers.{run_document, run_selfie}
use ekyc.Workers.Delivery.{save_delivery, deliver_webhook}
use ekyc.Workers.Sweep.{mark_reconciled, reconcile_stuck_sessions}
use ekyc.Frame.{TableFrame}
use ekyc.Frame.Appended.{StartsWith, appended_tables}
use ekyc.Frame.Instances.{chained_tables}
use ekyc.Api.Guards.{Call, call_on}
use ekyc.Api.Sessions.{SessionCreate, create_session}
use ekyc.Api.Auth.{TenantCreate, insert_tenant, create_tenant}
use ekyc.Frame.ApiOps
use ekyc.Frame.ApiOps.{ApiFrame, call_on-Keeps, create_tenant-Keeps}
use ekyc.Frame.OtpOps.{send_otp-Keeps, verify_otp-Keeps}
use ekyc.Frame.Operations.{
  otp_frame, grant_consent-Keeps, decline_consent-Keeps, create_session-Keeps, lock_session-Keeps,
  set_check-Keeps, evaluate-Keeps, expire-Keeps,
}
use ekyc.Frame.History.{Request, perform, perform-Keeps}
use ekyc.Frame.TaskOps.{TaskFrame}
use ekyc.Frame.TaskOps.Runs.{
  run_document-Keeps, run_selfie-Keeps, deliver_webhook-Keeps, reconcile_stuck_sessions-Keeps,
}

-- A call of a service or of the API, a task from its first execution to its end (with its retries and
-- the hook of its failure), one execution of the delivery of a webhook, or a sweep. The task of
-- tasks.py that purges is a step of `Lived` in Frame.Anchors, beside these.
pub data Work : Type 0 where
  service : Request → Work
  answer : KycSession → Call → Work
  open_session : Tenant → SessionCreate → Option String → Work
  enrol : TenantCreate → Work
  certificate : KycSession → Tenant → Work
  contract : KycSession → Tenant → ContractRequest → Work
  document : ℕ → Work
  selfie : String → ℕ → Work
  delivery : ℕ → Work
  reconcile : Work

-- `describe` is `str(exc)[:500]`.
module _ (env : Env) (describe : Exn → String) where
  -- The database after the work, whether it returned or raised.
  abbrev pub work_on : Work → Db → Db
  work_on (service r) db = perform env r db
  work_on (answer s c) db = (call_on env s c db).1
  work_on (open_session tenant request ip) db = (create_session env describe tenant request ip db).1
  work_on (enrol request) db = (create_tenant env request db).1
  work_on (certificate s tenant) db = (kyc_certificate env s tenant db).1
  work_on (contract s tenant request) db = (seal_contract env s tenant request db).1
  work_on (document id) db = run_document env describe id db
  work_on (selfie sid id) db = run_selfie env describe sid id db
  work_on (delivery id) db = (deliver_webhook env id db).1
  work_on reconcile db = (reconcile_stuck_sessions env db).1

  -- The databases that work and the passing of time lead to.
  pub data Worked (start : Db) : Db → Type 0 where
    idle : Worked start start
    work : {db : Db} → Worked start db → (w : Work) → Worked start (work_on w db)
    pause : {db : Db} → Worked start db → (t : ℕ) → Worked start (record db { now = db.now + t })

module _ (env : Env) {P : Db → Type 0} (tables : TableFrame env P)
    (keeps_delivery : (d : WebhookDelivery) → Keeps P (save_delivery d))
    (keeps_tenant : (t : Tenant) → Keeps P (insert_tenant env t)) (keeps_rollback : Rollback P)
    (keeps_seal : (s : KycSession) (pdf : Bytes) (reference : Option String) (filename : String)
        (qualified : Option Bool)
      → Keeps P (seal_document env s pdf reference filename qualified)) where
  open tables use {frame}

  mark_reconciled-Keeps : (sid : String) (now : ℕ) → Keeps P (mark_reconciled sid now)
  unfolding mark_reconciled
  mark_reconciled-Keeps sid now =
      search (keeps_rules, lock_session-Keeps env frame, frame.keeps_save)

  -- A frame that any write to the tables keeps is one for the tasks.
  task_frame : TaskFrame env P (λ s. Unit {0})
  task_frame = record {
    keeps_event = frame.keeps_event;
    keeps_draw = frame.keeps_draw;
    keeps_documents = tables.keeps_documents;
    keeps_biometrics = tables.keeps_biometrics;
    keeps_check = set_check-Keeps env frame;
    keeps_evaluate = evaluate-Keeps env frame;
    keeps_expire = expire-Keeps env frame;
    keeps_mark = mark_reconciled-Keeps;
    keeps_task = frame.keeps_task;
    keeps_delivery = keeps_delivery;
    keeps_rollback = keeps_rollback;
    is_good = λ sid db s h e. tt;
    keeps_identified = λ s good ocr. frame.keeps_save _;
  }

  -- And one for the calls of the API.
  api_frame : ApiFrame env P
  api_frame = record {
    keeps_event = frame.keeps_event;
    keeps_draw = frame.keeps_draw;
    keeps_artifacts = tables.keeps_artifacts;
    keeps_documents = tables.keeps_documents;
    keeps_task = frame.keeps_task;
    keeps_tenant = keeps_tenant;
    keeps_grant = grant_consent-Keeps env frame;
    keeps_decline = decline_consent-Keeps env frame;
    keeps_evaluate = evaluate-Keeps env frame;
    keeps_send = send_otp-Keeps env (otp_frame env tables);
    keeps_verify = verify_otp-Keeps env (otp_frame env tables);
    keeps_create = create_session-Keeps env frame;
    keeps_seal = keeps_seal;
    keeps_rollback = keeps_rollback;
  }

  module _ (describe : Exn → String) where
    pub work_on-Keeps : (w : Work) (db : Db) → P db → P (work_on env describe w db)
    work_on-Keeps (service r) = perform-Keeps env tables r
    work_on-Keeps (answer s c) = (call_on-Keeps env api_frame s c).at
    work_on-Keeps (open_session tenant request ip) =
        (ApiOps.create_session-Keeps env api_frame describe tenant request ip).at
    work_on-Keeps (enrol request) = (create_tenant-Keeps env api_frame request).at
    work_on-Keeps (certificate s tenant) =
        (kyc_certificate-Keeps env frame.keeps_draw keeps_rollback keeps_seal s tenant).at
    work_on-Keeps (contract s tenant request) =
        (seal_contract-Keeps env frame.keeps_draw keeps_rollback keeps_seal s tenant request).at
    work_on-Keeps (document id) = run_document-Keeps env task_frame describe id
    work_on-Keeps (selfie sid id) = run_selfie-Keeps env task_frame describe sid id
    work_on-Keeps (delivery id) = (deliver_webhook-Keeps env task_frame id).at
    work_on-Keeps reconcile = (reconcile_stuck_sessions-Keeps env task_frame).at

    pub Worked-Keeps :
        ((db : Db) (t : ℕ) → P db → P (record db { now = db.now + t }))
        → {start db : Db} → Worked env describe start db
        → P start
        → P db
    Worked-Keeps later idle h = h
    Worked-Keeps later (work before w) h = work_on-Keeps w _ (Worked-Keeps later before h)
    Worked-Keeps later (pause before t) h = later _ t (Worked-Keeps later before h)

-- The sealing of a document under a frame that a new row of `signed_documents` keeps.
pub sealed_tables :
    (env : Env) {P : Db → Type 0} (tables : TableFrame env P)
    → ((d : SignedDocument) → IsSigned env d → Keeps P (insert_signed d))
    → (s : KycSession) (pdf : Bytes) (reference : Option String) (filename : String)
      (qualified : Option Bool)
    → Keeps P (seal_document env s pdf reference filename qualified)
sealed_tables env tables keeps_signed =
    seal_document-Keeps env tables.frame.keeps_draw tables.keeps_artifacts tables.frame.keeps_event
      keeps_signed

-- From a database with no audit event, after any calls of `Request` and of the API and any background work (tasks
-- with their retries and failures, rolled back or not, deliveries and sweeps), `verify_chain` answers "valid" for
-- every session, with the number of its events and the hash of the last one.
pub verify_chain-Worked :
    (env : Env) (describe : Exn → String) {start db : Db}
    → start.events ≡ []
    → Worked env describe start db
    → (sid : String)
    → verify_chain env sid db ≡ (
      ok (valid (length (events_of sid db.events)) (head_hash env none (events_of sid db.events))),
      db,
    )
unfolding save_delivery insert_tenant insert_signed modify
verify_chain-Worked env describe empty worked sid = verify_chain-AllChained env sid _ (
    Worked-Keeps env (chained_tables env) (λ d. record { at = λ db h. h })
      (λ t. record { at = λ db h. h }) (λ db n l h. h)
      (sealed_tables env (chained_tables env) (λ d own. record { at = λ db h. h })) describe
      (λ db t h. h) worked (λ id. rw empty tt))
