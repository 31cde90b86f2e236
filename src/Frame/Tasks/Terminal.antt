-- ===== src/Frame/Tasks/Terminal.antt =====
-- A terminal status through calls and background work.
use ekyc.Prelude.{ℕ, String, ◌≡◌, ◌∙◌, sym, ap, true, some, or_else}
use mathlib.Core.Path.{subst}
use ekyc.Enums.{SessionStatus, is_terminal}
use ekyc.Models.{KycSession}
use ekyc.Env.{Env}
use ekyc.Exec.{Db, Exn, modify}
use ekyc.Exec.Keeps.{Keeps}
use ekyc.Store.{
  find_session, find_session-id, modify_documents, modify_artifacts, modify_biometrics, push_task,
  insert_signed,
}
use ekyc.Frame.DocumentOps.{seal_document-Keeps, kyc_certificate-Keeps, seal_contract-Keeps}
use ekyc.Identity.{identified}
use ekyc.Workers.Delivery.{save_delivery}
use ekyc.Workers.Sweep.{mark_reconciled}
use ekyc.Frame.Terminal.{
  HasStatus, Own, save_session-HasStatus, Keeps-lock, record_event-HasStatus, draw-HasStatus,
}
use ekyc.Frame.Terminal.Calls.{
  grant_consent-HasStatus, decline_consent-HasStatus, create_session-HasStatus, terminal_frame,
  Spares, perform-HasStatus, set_check-HasStatus, evaluate-HasStatus, expire-HasStatus,
}
use ekyc.Api.Auth.{insert_tenant}
use ekyc.Frame.OtpOps.{send_otp-Keeps, verify_otp-Keeps}
use ekyc.Frame.ApiOps.{ApiFrame, call_on-Keeps, create_session-Keeps, create_tenant-Keeps}
use ekyc.Frame.TaskOps.{TaskFrame}
use ekyc.Frame.TaskOps.Runs.{
  run_document-Keeps, run_selfie-Keeps, deliver_webhook-Keeps, reconcile_stuck_sessions-Keeps,
}
use ekyc.Frame.Tasks.{
  Work, service, answer, open_session, enrol, certificate, contract, document, selfie, delivery,
  reconcile, work_on, Worked, idle, work, pause,
}

module _ (env : Env) (sid : String) (st : SessionStatus) where
  -- A row that is found has the status if it is the session's.
  found-Own :
      (id : String) (db : Db) (s : KycSession)
      → HasStatus sid st db
      → find_session id db.sessions ≡ some s
      → Own sid st s
  found-Own id db s (t, f, e) found p =
      let known = find_session-id id s db.sessions found in
      ap (λ o. (or_else o t).status)
        (sym (subst (λ i. find_session i db.sessions ≡ some s) (sym known ∙ p) found) ∙ f)
      ∙ e

  mark_reconciled-HasStatus :
      (id : String) (now : ℕ) → Keeps (HasStatus sid st) (mark_reconciled id now)
  unfolding mark_reconciled
  mark_reconciled-HasStatus id now =
      Keeps-lock sid st id _ λ s known own. save_session-HasStatus sid st _ own

  module _ (terminal : is_terminal st ≡ true) where
    status_frame : TaskFrame env (HasStatus sid st) (Own sid st)
    unfolding modify_documents modify_biometrics push_task save_delivery modify
    status_frame = record {
      keeps_event = record_event-HasStatus sid st env;
      keeps_draw = draw-HasStatus sid st;
      keeps_documents = λ f. record { at = λ db h. h };
      keeps_biometrics = λ f. record { at = λ db h. h };
      keeps_check = set_check-HasStatus env sid st terminal;
      keeps_evaluate = evaluate-HasStatus env sid st terminal;
      keeps_expire = expire-HasStatus env sid st terminal;
      keeps_mark = mark_reconciled-HasStatus;
      keeps_task = λ d. record { at = λ db h. h };
      keeps_delivery = λ d. record { at = λ db h. h };
      keeps_rollback = λ db n l h. h;
      is_good = found-Own;
      keeps_identified = λ s good ocr. save_session-HasStatus sid st (identified env s ocr) good;
    }

  api_status_frame : is_terminal st ≡ true → ApiFrame env (HasStatus sid st)
  unfolding modify_documents modify_artifacts push_task insert_tenant insert_signed modify
  api_status_frame terminal = record {
    keeps_event = record_event-HasStatus sid st env;
    keeps_draw = draw-HasStatus sid st;
    keeps_artifacts = λ f. record { at = λ db h. h };
    keeps_documents = λ f. record { at = λ db h. h };
    keeps_task = λ d. record { at = λ db h. h };
    keeps_tenant = λ t. record { at = λ db h. h };
    keeps_grant = grant_consent-HasStatus env sid st terminal;
    keeps_decline = decline_consent-HasStatus env sid st terminal;
    keeps_evaluate = evaluate-HasStatus env sid st terminal;
    keeps_send = send_otp-Keeps env (terminal_frame env sid st terminal);
    keeps_verify = verify_otp-Keeps env (terminal_frame env sid st terminal);
    keeps_create = create_session-HasStatus env sid st terminal;
    keeps_seal =
        seal_document-Keeps env (draw-HasStatus sid st) (λ f. record { at = λ db h. h })
          (record_event-HasStatus sid st env) (λ d own. record { at = λ db h. h });
    keeps_rollback = λ db n l h. h;
  }

-- No override of this session.
abbrev pub WorkSpares : String → Work → Type 0
WorkSpares sid (service r) = Spares sid r
WorkSpares sid _ = Unit

module _ (env : Env) (describe : Exn → String) where
  -- No work of the history overrides this session.
  unfoldable pub AllWorkSpare : String → {start db : Db} → Worked env describe start db → Type 0
  AllWorkSpare sid idle = Unit
  AllWorkSpare sid (work before w) = AllWorkSpare sid before × WorkSpares sid w
  AllWorkSpare sid (pause before t) = AllWorkSpare sid before

  module _ (sid : String) (st : SessionStatus) (terminal : is_terminal st ≡ true) where
    work_on-HasStatus :
        (w : Work) (db : Db)
        → WorkSpares sid w
        → HasStatus sid st db
        → HasStatus sid st (work_on env describe w db)
    work_on-HasStatus (service r) db spares = perform-HasStatus env sid st terminal r db spares
    work_on-HasStatus (answer s c) db spares =
        (call_on-Keeps env (api_status_frame env sid st terminal) s c).at db
    work_on-HasStatus (open_session tenant request ip) db spares =
        (create_session-Keeps env (api_status_frame env sid st terminal) describe tenant request
            ip).at
          db
    work_on-HasStatus (enrol request) db spares =
        (create_tenant-Keeps env (api_status_frame env sid st terminal) request).at db
    work_on-HasStatus (certificate s tenant) db spares =
        let frame = api_status_frame env sid st terminal in
        (kyc_certificate-Keeps env frame.keeps_draw frame.keeps_rollback frame.keeps_seal s
            tenant).at
          db
    work_on-HasStatus (contract s tenant request) db spares =
        let frame = api_status_frame env sid st terminal in
        (seal_contract-Keeps env frame.keeps_draw frame.keeps_rollback frame.keeps_seal s tenant
            request).at
          db
    work_on-HasStatus (document id) db spares =
        run_document-Keeps env (status_frame env sid st terminal) describe id db
    work_on-HasStatus (selfie own id) db spares =
        run_selfie-Keeps env (status_frame env sid st terminal) describe own id db
    work_on-HasStatus (delivery id) db spares =
        (deliver_webhook-Keeps env (status_frame env sid st terminal) id).at db
    work_on-HasStatus reconcile db spares =
        (reconcile_stuck_sessions-Keeps env (status_frame env sid st terminal)).at db

  -- Once a session has a terminal status, it keeps this status through any calls of `Request` and of the API, any background
  -- work (tasks that process its document or selfie included) and any passing of time, as long as no call is an
  -- override of that session.
  pub status-Worked :
      {start db : Db} (sid : String) (st : SessionStatus)
      → is_terminal st ≡ true
      → HasStatus sid st start
      → (worked : Worked env describe start db) → AllWorkSpare sid worked
      → HasStatus sid st db
  unfolding AllWorkSpare
  status-Worked sid st terminal h idle spares = h
  status-Worked sid st terminal h (work before w) spares =
      work_on-HasStatus sid st terminal w _ spares.1
        (status-Worked sid st terminal h before spares.0)
  status-Worked sid st terminal h (pause before t) spares =
      status-Worked sid st terminal h before spares
