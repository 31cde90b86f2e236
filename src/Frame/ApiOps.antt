-- ===== src/Frame/ApiOps.antt =====
-- The calls of app/api/v1 under an interface of the operations they call.
use ekyc.Prelude.{String, Bool, true, false, Option, none, some, List}
use ekyc.Json.{Fields}
use ekyc.Enums.{DocumentType, OtpChannel}
use ekyc.Models.{KycSession, Tenant, Document, Artifact}
use ekyc.Env.{Env, Bytes}
use ekyc.Exec.{Db, Dispatch, Exn, Result, ok, err, Exec, draw}
use ekyc.Exec.Keeps.{
  Keeps, Keeps-bind, Keeps-lift, Keeps-pure, Keeps-raise, Keeps-transaction, Rollback, keeps_rules,
}
use ekyc.Audit.{NewEvent, record_event}
use ekyc.Store.{modify_documents, modify_artifacts, push_task}
use ekyc.Evidence.{seal_document}
use ekyc.Frame.DocumentOps.{store_artifact-Keeps}
use ekyc.Kyc.Session
use ekyc.Kyc.Session.{grant_consent, decline_consent, ensure_active}
use ekyc.Kyc.Decide.{evaluate}
use ekyc.Otp
use ekyc.Api.{remapped, raising_as, require_open}
use ekyc.Api.Verification
use ekyc.Api.Verification.{
  Upload, read_upload, step_result, demand_consent, consent, store_upload, capture_document,
  upload_document, capture_selfie, upload_selfie, or_refused, try_code, when_verified,
}
use ekyc.Api.Guards.{
  Capture, document, selfie, otp_send, otp_verify, Call, give_consent, capture, capture_on, call_on,
}
use ekyc.Api.Sessions
use ekyc.Api.Sessions.{SessionCreate, creation_error, open_session}
use ekyc.Api.Auth.{
  TenantCreate, new_client_id, new_secret, webhook_secret_for, insert_tenant, create_tenant,
}
use ekyc.Frame.Operations.{utcnow-Keeps, load_session-Keeps}

pub record ApiFrame (env : Env) (P : Db → Type 0) : Type 0 where
  pub keeps_event : (n : NewEvent) → Keeps P (record_event env n)
  pub keeps_draw : Keeps P draw
  pub keeps_artifacts : (f : List Artifact → List Artifact) → Keeps P (modify_artifacts f)
  pub keeps_documents : (f : List Document → List Document) → Keeps P (modify_documents f)
  pub keeps_task : (d : Dispatch) → Keeps P (push_task d)
  pub keeps_tenant : (t : Tenant) → Keeps P (insert_tenant env t)
  pub keeps_grant :
      (sid version : String) (ip agent : Option String)
      → Keeps P (grant_consent env sid version ip agent)
  pub keeps_decline :
      (sid version : String) (ip : Option String) → Keeps P (decline_consent env sid version ip)
  pub keeps_evaluate : (sid : String) → Keeps P (evaluate env sid)
  pub keeps_send :
      (sid : String) (channel : OtpChannel) (destination : String)
      → Keeps P (Otp.send_otp env sid channel destination)
  pub keeps_verify : (sid code : String) → Keeps P (Otp.verify_otp env sid code)
  pub keeps_create :
      (tenant : Tenant) (flow : String) (reference : Option String) (metadata : Fields)
      (jurisdiction ip : Option String)
      → Keeps P (Session.create_session env tenant flow reference metadata jurisdiction ip)
  pub keeps_seal :
      (s : KycSession) (pdf : Bytes) (reference : Option String) (filename : String)
      (qualified : Option Bool)
      → Keeps P (seal_document env s pdf reference filename qualified)
  pub keeps_rollback : Rollback P

remapped-Keeps :
    {A : Type 0} (P : Db → Type 0) (f : Exn → Exn) (r : Result A) (db : Db)
    → P db
    → P (remapped f (r, db)).1
remapped-Keeps P f (ok a) db h = h
remapped-Keeps P f (err e) db h = h

module _ {P : Db → Type 0} where
  raising_as-Keeps :
      {A : Type 0} (f : Exn → Exn) (m : Exec A) → Keeps P m → Keeps P (raising_as f m)
  unfolding raising_as
  raising_as-Keeps f m km = record {
    at = λ db h. let (r, db') = m db in remapped-Keeps P f r db' (km.at db h);
  }

  require_open-Keeps : (s : KycSession) → Keeps P (require_open s)
  unfolding require_open ensure_active
  require_open-Keeps s = raising_as-Keeps _ _ (search (keeps_rules, utcnow-Keeps))

  demand_consent-Keeps : (s : KycSession) → Keeps P (demand_consent s)
  unfolding demand_consent Session.require_consent
  demand_consent-Keeps s = raising_as-Keeps _ _ (search keeps_rules)

  read_upload-Keeps : (file : Upload) → Keeps P (read_upload file)
  unfolding read_upload
  read_upload-Keeps file = search keeps_rules

  step_result-Keeps : (sid : String) → Keeps P (step_result sid)
  unfolding step_result
  step_result-Keeps sid = search (keeps_rules, load_session-Keeps)

module _ (env : Env) {P : Db → Type 0} (frame : ApiFrame env P) where
  open frame use {
    keeps_event, keeps_draw, keeps_artifacts, keeps_documents, keeps_task, keeps_tenant,
    keeps_grant, keeps_decline, keeps_evaluate, keeps_send, keeps_verify, keeps_create,
    keeps_rollback,
  }

  consent-Keeps :
      (s : KycSession) (accepted : Bool) (version : String) (ip agent : Option String)
      → Keeps P (consent env s accepted version ip agent)
  unfolding consent
  consent-Keeps s true version ip agent =
      Keeps-bind _ _
        (Keeps-transaction keeps_rollback _ (search (keeps_rules, require_open-Keeps, keeps_grant)))
        λ _. step_result-Keeps _
  consent-Keeps s false version ip agent =
      Keeps-bind _ _
        (Keeps-transaction keeps_rollback _
          (search (keeps_rules, require_open-Keeps, keeps_decline)))
        λ _. Keeps-raise _

  capture_document-Keeps :
      (s : KycSession) (ip : Option String) (type : DocumentType) (file : Upload)
      → Keeps P (capture_document env s ip type file)
  unfolding capture_document
  capture_document-Keeps s ip type file = Keeps-bind _ _ (require_open-Keeps s) λ _.
      Keeps-bind _ _ (demand_consent-Keeps s) λ _. Keeps-bind _ _ (Keeps-lift _) λ policy.
        Keeps-bind _ _ (search keeps_rules) λ _. Keeps-bind _ _ (read_upload-Keeps file) λ plain.
          Keeps-bind _ _ (store_artifact-Keeps env keeps_draw keeps_artifacts _ _ _ _ _ _ _) λ a.
            Keeps-bind _ _ keeps_draw λ id. Keeps-bind _ _ utcnow-Keeps λ now.
              Keeps-bind _ _ (keeps_documents _)
                λ _. Keeps-bind _ _ (keeps_event _) λ _. Keeps-pure _

  capture_selfie-Keeps :
      (s : KycSession) (ip : Option String) (file : Upload) → Keeps P (capture_selfie env s ip file)
  unfolding capture_selfie
  capture_selfie-Keeps s ip file = Keeps-bind _ _ (require_open-Keeps s) λ _.
      Keeps-bind _ _ (demand_consent-Keeps s) λ _. Keeps-bind _ _ (read_upload-Keeps file) λ plain.
        Keeps-bind _ _ (store_artifact-Keeps env keeps_draw keeps_artifacts _ _ _ _ _ _ _)
          λ a. Keeps-bind _ _ (keeps_event _) λ _. Keeps-pure _

  or_refused-Keeps : (r : Result Bool) (db : Db) → P db → P (or_refused env (r, db)).1
  or_refused-Keeps (ok verified) db h = h
  or_refused-Keeps (err e) db h = h

  send_otp-Keeps :
      (s : KycSession) (channel : OtpChannel) (destination : String)
      → Keeps P (Verification.send_otp env s channel destination)
  unfolding Verification.send_otp
  send_otp-Keeps s channel destination = Keeps-transaction keeps_rollback _ (
      Keeps-bind _ _ (require_open-Keeps s) λ _. Keeps-bind _ _ (demand_consent-Keeps s) λ _.
        Keeps-bind _ _ (Keeps-lift _) λ policy.
          Keeps-bind _ _ (search keeps_rules)
            λ _. Keeps-bind _ _ (raising_as-Keeps _ _ (keeps_send _ _ _)) λ c. Keeps-pure _)

  try_code-Keeps : (sid code : String) → Keeps P (try_code env sid code)
  try_code-Keeps sid code = record {
    at = λ db h.
        let (r, db') = Otp.verify_otp env sid code db in
        or_refused-Keeps r db' ((keeps_verify sid code).at db h);
  }

  when_verified-Keeps : (sid : String) (r : Result Bool) → Keeps P (when_verified env sid r)
  when_verified-Keeps sid (ok true) = Keeps-bind _ _ (keeps_evaluate sid) λ _. Keeps-pure _
  when_verified-Keeps sid (ok false) = Keeps-pure _
  when_verified-Keeps sid (err e) = Keeps-pure _

  verify_otp-Keeps : (s : KycSession) (code : String) → Keeps P (Verification.verify_otp env s code)
  unfolding Verification.verify_otp
  verify_otp-Keeps s code =
      Keeps-bind _ _
        (Keeps-transaction keeps_rollback _ (
          Keeps-bind _ _ (require_open-Keeps s) λ _. Keeps-bind _ _ (demand_consent-Keeps s) λ _.
            Keeps-bind _ _ (try_code-Keeps s.id code) λ outcome. when_verified-Keeps s.id outcome))
        λ outcome. Keeps-lift _

  capture_on-Keeps : (s : KycSession) (c : Capture) → Keeps P (capture_on env s c)
  unfolding upload_document upload_selfie
  capture_on-Keeps s (document ip type file) =
      Keeps-bind _ _
        (Keeps-bind _ _ (Keeps-transaction keeps_rollback _ (capture_document-Keeps s ip type file))
          λ id.
            Keeps-bind _ _ (keeps_task _)
              λ _. Keeps-bind _ _ (step_result-Keeps _) λ r. Keeps-pure _)
        λ _. Keeps-pure _
  capture_on-Keeps s (selfie ip file) =
      Keeps-bind _ _
        (Keeps-bind _ _ (Keeps-transaction keeps_rollback _ (capture_selfie-Keeps s ip file))
          λ id. Keeps-bind _ _ (keeps_task _) λ _. step_result-Keeps _)
        λ _. Keeps-pure _
  capture_on-Keeps s (otp_send channel destination) =
      Keeps-bind _ _ (send_otp-Keeps s channel destination) λ _. Keeps-pure _
  capture_on-Keeps s (otp_verify code) = Keeps-bind _ _ (verify_otp-Keeps s code) λ _. Keeps-pure _

  pub call_on-Keeps : (s : KycSession) (c : Call) → Keeps P (call_on env s c)
  call_on-Keeps s (give_consent accepted version ip agent) =
      Keeps-bind _ _ (consent-Keeps s accepted version ip agent) λ _. Keeps-pure _
  call_on-Keeps s (capture c) = capture_on-Keeps s c

  pub create_session-Keeps :
      (describe : Exn → String) (tenant : Tenant) (request : SessionCreate) (ip : Option String)
      → Keeps P (Sessions.create_session env describe tenant request ip)
  unfolding Sessions.create_session
  create_session-Keeps describe tenant request ip =
      Keeps-bind _ _
        (Keeps-transaction keeps_rollback _ (
          raising_as-Keeps _ _ (
            Keeps-bind _ _ (keeps_create _ _ _ _ _ _) λ created.
              let (s, token) = created in
              Keeps-bind _ _ (Keeps-lift _) λ _.
                Keeps-bind _ _ (Keeps-lift _)
                  λ _. Keeps-bind _ _ (Keeps-lift _) λ _. Keeps-pure _)))
        λ created. Keeps-pure _

  new_secret-Keeps : (prefix : String) → Keeps P (new_secret env prefix)
  unfolding new_secret
  new_secret-Keeps prefix = Keeps-bind _ _ keeps_draw λ n. Keeps-pure _

  webhook_secret_for-Keeps : (url : Option String) → Keeps P (webhook_secret_for env url)
  webhook_secret_for-Keeps none = Keeps-pure _
  webhook_secret_for-Keeps (some url) = Keeps-bind _ _ (new_secret-Keeps _) λ secret. Keeps-pure _

  pub create_tenant-Keeps : (request : TenantCreate) → Keeps P (create_tenant env request)
  unfolding create_tenant new_client_id
  create_tenant-Keeps request = Keeps-transaction keeps_rollback _ (
      Keeps-bind _ _ (search keeps_rules) λ _.
        Keeps-bind _ _ (Keeps-bind _ _ keeps_draw λ n. Keeps-pure _) λ client_id.
          Keeps-bind _ _ (new_secret-Keeps _) λ client_secret.
            Keeps-bind _ _ (webhook_secret_for-Keeps _) λ webhook_secret.
              Keeps-bind _ _ keeps_draw λ n.
                Keeps-bind _ _ utcnow-Keeps
                  λ now. Keeps-bind _ _ (keeps_tenant _) λ _. Keeps-pure _)
