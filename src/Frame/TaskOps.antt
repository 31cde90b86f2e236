-- ===== src/Frame/TaskOps.antt =====
-- The engines of app/engines/identity.py and biometrics.py, transactions and retries, under an
-- interface of the operations they call.
pub mod Runs
use ekyc.Prelude.{
  ℕ, zero, suc, String, Bool, true, false, not, Bool-cases, Option-cases, inl, inr, ◌≡◌, refl,
  Option, none, some, List, [], ◌∷◌, if◌then◌else◌, str_eq, leb, non_empty,
}
use ekyc.Enums.{CheckStatus, Step, is_terminal, check_status_eq}
use ekyc.Models.{KycSession, Document, Artifact, BiometricCheck, StepInternal, WebhookDelivery}
use ekyc.Env.{
  Env, Bytes, OcrResult, DocumentAuthenticityResult, FaceResult, HttpReply, no_response, response,
}
use ekyc.Exec.{
  Db, Limiter, Dispatch, Exn, Result, ok, err, Exec, draw, gets, transaction, settle, lift, ◌>>=◌,
}
use ekyc.Exec.Keeps.{
  Rollback, Keeps, Keeps-bind, Keeps-gets, Keeps-lift, Keeps-pure, Keeps-if, Keeps-raise,
  keeps_rules,
}
use ekyc.Audit.{NewEvent, record_event}
use ekyc.Store.{
  find_session, save_session, modify_documents, modify_artifacts, modify_biometrics, push_task,
}
use ekyc.Kyc.Decide.{set_check, evaluate, expire}
use ekyc.Archive.{read_artifact}
use ekyc.Identity
use ekyc.Identity.{identified, apply_document, document_image, image_of, image_of_document}
use ekyc.Biometrics
use ekyc.Biometrics.{Results, record_check, compare_faces, match_document, match_face}
use ekyc.Workers
use ekyc.Workers.{
  check_pending, retry_or, retrying, review_steps, send_to_review, fail_session, processing_failed,
  document_of, document_task, selfie_of, on_document_failure, on_selfie_failure, document_session,
  end_document, run_document, end_selfie, run_selfie, is_permanent,
}
use ekyc.Workers.Delivery.{
  save_delivery, fail_delivery, complete_delivery, settle_delivery, post_delivery, delivery_task,
  deliver_webhook,
}
use ekyc.Workers.Sweep.{
  mark_reconciled, requeue, sweep_session, sweep_all, sweep, dispatch_all, reconcile_stuck_sessions,
  Sweep,
}
use ekyc.Frame.Operations.{or_raise-Keeps, utcnow-Keeps}

-- `Good` is what may be counted on of a row that was read.
pub record TaskFrame (env : Env) (P : Db → Type 0) (Good : KycSession → Type 0) : Type 0 where
  pub keeps_event : (n : NewEvent) → Keeps P (record_event env n)
  pub keeps_draw : Keeps P draw
  pub keeps_documents : (f : List Document → List Document) → Keeps P (modify_documents f)
  pub keeps_biometrics :
      (f : List BiometricCheck → List BiometricCheck) → Keeps P (modify_biometrics f)
  pub keeps_check :
      (sid : String) (step : Step) (status : CheckStatus) (details : Option StepInternal)
      → Keeps P (set_check sid step status details)
  pub keeps_evaluate : (sid : String) → Keeps P (evaluate env sid)
  pub keeps_expire : (sid : String) → Keeps P (expire env sid)
  pub keeps_mark : (sid : String) (now : ℕ) → Keeps P (mark_reconciled sid now)
  pub keeps_task : (d : Dispatch) → Keeps P (push_task d)
  pub keeps_delivery : (d : WebhookDelivery) → Keeps P (save_delivery d)
  pub keeps_rollback : Rollback P
  pub is_good :
      (sid : String) (db : Db) (s : KycSession)
      → P db
      → find_session sid db.sessions ≡ some s
      → Good s
  pub keeps_identified :
      (s : KycSession) → Good s → (ocr : OcrResult) → Keeps P (save_session (identified env s ocr))

module _ (env : Env) {P : Db → Type 0} {Good : KycSession → Type 0}
    (frame : TaskFrame env P Good) where
  open frame use {
    keeps_event, keeps_draw, keeps_documents, keeps_biometrics, keeps_check, keeps_evaluate,
    keeps_expire, keeps_mark, keeps_task, keeps_delivery, keeps_rollback, is_good, keeps_identified,
  }

  pub Keeps-find :
      {B : Type 0} (sid : String) (f : Option KycSession → Exec B)
      → Keeps P (f none)
      → ((s : KycSession) → Good s → Keeps P (f (some s)))
      → Keeps P (gets (λ db. find_session sid db.sessions) >>= f)
  unfolding ◌>>=◌
  Keeps-find sid f missing known = record {
    at = λ db h. elim (Option-cases (find_session sid db.sessions)) [
      | inl e ↦ rw e (missing.at db h)
      | inr (s, e) ↦ rw e ((known s (is_good sid db s h e)).at db h)
    ];
  }

  retried :
      {A : Type 0} (permanent : Exn → Bool) (again : Exec A)
      → Keeps P again
      → (r : Result A) (db : Db) → P db
      → P (retry_or permanent again (r, db)).1
  retried permanent again k (ok a) db h = h
  retried permanent again k (err e) db h = elim (Bool-cases (permanent e)) [
    | inl final ↦ rw final h
    | inr retry ↦ rw retry (k.at db h)
  ]

  pub Keeps-retrying :
      {A : Type 0} (n : ℕ) (permanent : Exn → Bool) (m : Exec A)
      → Keeps P m
      → Keeps P (retrying n permanent m)
  unfolding retrying
  Keeps-retrying zero permanent m km = record { at = λ db h. km.at db h }
  Keeps-retrying (suc n) permanent m km = record {
    at = λ db h.
        let (r, db') = m db in
        retried permanent (retrying n permanent m) (Keeps-retrying n permanent m km) r db'
          (km.at db h);
  }

  pub read_artifact-Keeps : (a : Artifact) → Keeps P (read_artifact env a)
  unfolding read_artifact
  read_artifact-Keeps a = Keeps-bind _ _ (Keeps-lift _) λ backend.
      Keeps-bind _ _ keeps_draw λ n. Keeps-bind _ _ (or_raise-Keeps _ _) λ blob. Keeps-lift _

  -- app/engines/identity.py
  apply_document-Keeps :
      (s : KycSession) (d : Document) (ocr : OcrResult) (authenticity : DocumentAuthenticityResult)
      → Good s
      → Keeps P (apply_document env s d ocr authenticity)
  unfolding apply_document
  apply_document-Keeps s d ocr authenticity good = Keeps-bind _ _ utcnow-Keeps λ now.
      Keeps-bind _ _ (keeps_documents _) λ _. Keeps-bind _ _ (keeps_event _) λ _.
        Keeps-bind _ _ (Keeps-if _ _ _ (keeps_identified s good ocr) (Keeps-pure _))
          λ _. Keeps-bind _ _ (keeps_check _ _ _ _) λ _. Keeps-pure _

  pub identity-Keeps :
      (s : KycSession) (d : Document) (image : Bytes)
      → Good s
      → Keeps P (Identity.process_document env s d image)
  unfolding Identity.process_document
  identity-Keeps s d image good = Keeps-bind _ _ keeps_draw λ n.
      Keeps-bind _ _ (or_raise-Keeps _ _) λ ocr. Keeps-bind _ _ (keeps_documents _) λ _.
        Keeps-bind _ _ (keeps_event _) λ _. Keeps-bind _ _ keeps_draw λ m.
          Keeps-bind _ _ (or_raise-Keeps _ _)
            λ authenticity. apply_document-Keeps s d ocr authenticity good

  image_of-Keeps : (a : Option Artifact) → Keeps P (image_of env a)
  image_of-Keeps none = Keeps-pure _
  image_of-Keeps (some a) = Keeps-bind _ _ (read_artifact-Keeps a) λ image. Keeps-pure _

  image_of_document-Keeps : (d : Option Document) → Keeps P (image_of_document env d)
  image_of_document-Keeps none = Keeps-pure _
  image_of_document-Keeps (some d) = Keeps-bind _ _ (Keeps-gets _) λ a. image_of-Keeps a

  document_image-Keeps : (sid : String) → Keeps P (document_image env sid)
  unfolding document_image
  document_image-Keeps sid = Keeps-bind _ _ (Keeps-gets _) λ d. image_of_document-Keeps d

  -- app/engines/biometrics.py
  record_check-Keeps :
      (s : KycSession) (kind : Step) (status : CheckStatus) (r : FaceResult)
      → Keeps P (record_check s kind status r)
  unfolding record_check
  record_check-Keeps s kind status r = Keeps-bind _ _ utcnow-Keeps λ now. keeps_biometrics _

  compare_faces-Keeps :
      (s : KycSession) (selfie image : Bytes) (results : Results)
      → Keeps P (compare_faces env s selfie image results)
  unfolding compare_faces
  compare_faces-Keeps s selfie image results = Keeps-bind _ _ keeps_draw λ n.
      Keeps-bind _ _ (or_raise-Keeps _ _) λ match. Keeps-bind _ _ (record_check-Keeps _ _ _ _) λ _.
        Keeps-bind _ _ (keeps_event _) λ _. Keeps-bind _ _ (keeps_check _ _ _ _) λ _. Keeps-pure _

  match_document-Keeps :
      (s : KycSession) (selfie : Bytes) (results : Results) (image : Option Bytes)
      → Keeps P (match_document env s selfie results image)
  match_document-Keeps s selfie results none =
      Keeps-bind _ _ (keeps_check _ _ _ _) λ _. Keeps-pure _
  match_document-Keeps s selfie results (some image) = compare_faces-Keeps s selfie image results

  match_face-Keeps :
      (s : KycSession) (selfie : Bytes) (status : CheckStatus) (results : Results)
      → Keeps P (match_face env s selfie status results)
  unfolding match_face
  match_face-Keeps s selfie status results =
      Keeps-if _ _ _ (Keeps-bind _ _ (keeps_check _ _ _ _) λ _. Keeps-pure _) (
        Keeps-bind _ _ (document_image-Keeps _)
          λ image. match_document-Keeps s selfie results image)

  pub biometrics-Keeps :
      (s : KycSession) (selfie : Bytes) → Keeps P (Biometrics.process_selfie env s selfie)
  unfolding Biometrics.process_selfie
  biometrics-Keeps s selfie = Keeps-bind _ _ (Keeps-lift _) λ policy. Keeps-bind _ _ keeps_draw λ n.
      Keeps-bind _ _ (or_raise-Keeps _ _) λ live. Keeps-bind _ _ (record_check-Keeps _ _ _ _) λ _.
        Keeps-bind _ _ (keeps_event _) λ _.
          Keeps-bind _ _ (Keeps-if _ _ _ (keeps_check _ _ _ _) (Keeps-pure _))
            λ _. Keeps-if _ _ _ (Keeps-pure _) (match_face-Keeps s selfie _ _)
