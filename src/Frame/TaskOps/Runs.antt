-- ===== src/Frame/TaskOps/Runs.antt =====
-- The tasks of app/workers/tasks.py under the interface of `ekyc.Frame.TaskOps`.
use ekyc.Prelude.{ℕ, String, Option, none, some, List, [], ◌∷◌}
use ekyc.Enums.{Step}
use ekyc.Models.{KycSession, Document, Artifact, WebhookDelivery}
use ekyc.Env.{Env, HttpReply, no_response, response}
use ekyc.Exec.{Db, Dispatch, Exn, Result, ok, err}
use ekyc.Exec.Keeps.{
  Keeps-transaction, Keeps, Keeps-bind, Keeps-gets, Keeps-pure, Keeps-if, keeps_rules,
}
use ekyc.Store.{find_session}
use ekyc.Workers
use ekyc.Workers.{
  task_max_retries, is_permanent, review_steps, send_to_review, fail_session, processing_failed,
  document_of, document_task, selfie_of, on_document_failure, on_selfie_failure, document_session,
  end_document, run_document, end_selfie, run_selfie,
}
use ekyc.Identity.{find_document}
use ekyc.Workers.Delivery.{
  fail_delivery, complete_delivery, settle_delivery, post_delivery, delivery_task, deliver_webhook,
}
use ekyc.Workers.Sweep.{
  requeue, sweep_session, sweep_all, sweep, dispatch_all, reconcile_stuck_sessions, Sweep,
}
use ekyc.Frame.Operations.{utcnow-Keeps}
use ekyc.Frame.TaskOps.{
  TaskFrame, Keeps-find, Keeps-retrying, read_artifact-Keeps, identity-Keeps, biometrics-Keeps,
}

module _ (env : Env) {P : Db → Type 0} {Good : KycSession → Type 0}
    (frame : TaskFrame env P Good) where
  open frame use {
    keeps_rollback, keeps_event, keeps_check, keeps_evaluate, keeps_expire, keeps_mark, keeps_task,
    keeps_draw, keeps_delivery,
  }

  apply_document-Keeps :
      (s : KycSession) (d : Document) (a : Artifact)
      → Good s
      → Keeps P (Workers.apply_document env s d a)
  unfolding Workers.apply_document
  apply_document-Keeps s d a good =
      Keeps-if _ _ _
        (Keeps-bind _ _ (read_artifact-Keeps env frame a) λ image.
          Keeps-bind _ _ (identity-Keeps env frame s d image good)
            λ _. search (keeps_rules, keeps_evaluate))
        (Keeps-pure _)

  document_of-Keeps :
      (d : Document) (s : KycSession) (a : Option Artifact)
      → Good s
      → Keeps P (document_of env d (some s) a)
  document_of-Keeps d s (some a) good = apply_document-Keeps s d a good
  document_of-Keeps d s none good = Keeps-pure _

  document_task-Keeps : (d : Option Document) → Keeps P (document_task env d)
  document_task-Keeps none = Keeps-pure _
  document_task-Keeps (some d) =
      Keeps-find env frame d.session_id _ (Keeps-bind _ _ (Keeps-gets _) λ a. Keeps-pure _)
        λ s good. Keeps-bind _ _ (Keeps-gets _) λ a. document_of-Keeps d s a good

  pub process_document-Keeps : (id : ℕ) → Keeps P (Workers.process_document env id)
  unfolding Workers.process_document
  process_document-Keeps id =
      Keeps-transaction keeps_rollback _ (Keeps-bind _ _ (Keeps-gets _) λ d. document_task-Keeps d)

  apply_selfie-Keeps : (s : KycSession) (a : Artifact) → Keeps P (Workers.apply_selfie env s a)
  unfolding Workers.apply_selfie
  apply_selfie-Keeps s a =
      Keeps-if _ _ _
        (Keeps-bind _ _ (read_artifact-Keeps env frame a) λ selfie.
          Keeps-bind _ _ (biometrics-Keeps env frame s selfie)
            λ _. search (keeps_rules, keeps_evaluate))
        (Keeps-pure _)

  selfie_of-Keeps : (s : Option KycSession) (a : Option Artifact) → Keeps P (selfie_of env s a)
  selfie_of-Keeps (some s) (some a) = apply_selfie-Keeps s a
  selfie_of-Keeps (some s) none = Keeps-pure _
  selfie_of-Keeps none a = Keeps-pure _

  pub process_selfie-Keeps : (sid : String) (id : ℕ) → Keeps P (Workers.process_selfie env sid id)
  unfolding Workers.process_selfie
  process_selfie-Keeps sid id =
      Keeps-transaction keeps_rollback _
        (Keeps-bind _ _ (Keeps-gets _) λ s. Keeps-bind _ _ (Keeps-gets _) λ a. selfie_of-Keeps s a)

  review_steps-Keeps :
      (sid task : String) (steps : List Step) → Keeps P (review_steps env sid task steps)
  unfolding review_steps
  review_steps-Keeps sid task [] = Keeps-pure _
  review_steps-Keeps sid task (step ∷ rest) =
      Keeps-bind _ _ (keeps_check _ _ _ _) λ _. review_steps-Keeps sid task rest

  send_to_review-Keeps :
      (s : KycSession) (error task : String) (steps : List Step)
      → Keeps P (send_to_review env s error task steps)
  unfolding send_to_review
  send_to_review-Keeps s error task steps =
      search (keeps_rules, keeps_event, review_steps-Keeps, keeps_evaluate)

  fail_session-Keeps :
      (s : Option KycSession) (error task : String) (steps : List Step)
      → Keeps P (fail_session env s error task steps)
  fail_session-Keeps none error task steps = Keeps-pure _
  fail_session-Keeps (some s) error task steps = search (keeps_rules, send_to_review-Keeps)

  pub processing_failed-Keeps :
      (error task sid : String) (steps : List Step)
      → Keeps P (processing_failed env error task sid steps)
  unfolding processing_failed
  processing_failed-Keeps error task sid steps = record {
    at =
        (Keeps-transaction keeps_rollback _ (
          Keeps-bind _ _ (Keeps-gets (λ db. find_session sid db.sessions))
            λ s. fail_session-Keeps s error task steps)).at;
  }

  module _ (describe : Exn → String) where
    document_failure-Keeps :
        (error : String) (sid : Option String) → Keeps P (on_document_failure env error sid)
    document_failure-Keeps error none = Keeps-pure _
    document_failure-Keeps error (some sid) = processing_failed-Keeps error _ sid _

    end_document-Keeps :
        (id : ℕ) (r : Result String) (db : Db) → P db → P (end_document env describe id (r, db))
    end_document-Keeps id (ok text) db h = h
    end_document-Keeps id (err e) db h =
        (document_failure-Keeps (describe e)
            (document_session env (find_document id db.documents))).at
          db h

    pub run_document-Keeps : (id : ℕ) (db : Db) → P db → P (run_document env describe id db)
    unfolding run_document
    run_document-Keeps id db h =
        let (r, db') =
          Workers.retrying task_max_retries is_permanent (Workers.process_document env id) db in
        end_document-Keeps id r db' (
          (Keeps-retrying env frame task_max_retries is_permanent _ (process_document-Keeps id)).at
            db h)

    end_selfie-Keeps :
        (sid : String) (r : Result String) (db : Db)
        → P db
        → P (end_selfie env describe sid (r, db))
    end_selfie-Keeps sid (ok text) db h = h
    end_selfie-Keeps sid (err e) db h = (processing_failed-Keeps (describe e) _ sid _).at db h

    pub run_selfie-Keeps :
        (sid : String) (id : ℕ) (db : Db) → P db → P (run_selfie env describe sid id db)
    unfolding run_selfie
    run_selfie-Keeps sid id db h =
        let (r, db') =
          Workers.retrying task_max_retries is_permanent (Workers.process_selfie env sid id) db in
        end_selfie-Keeps sid r db' (
          (Keeps-retrying env frame task_max_retries is_permanent _
              (process_selfie-Keeps sid id)).at
            db h)

  fail_delivery-Keeps : (d : WebhookDelivery) → Keeps P (fail_delivery env d)
  unfolding fail_delivery
  fail_delivery-Keeps d = search (keeps_rules, keeps_delivery, keeps_event) depth 9

  complete_delivery-Keeps : (d : WebhookDelivery) → Keeps P (complete_delivery env d)
  unfolding complete_delivery
  complete_delivery-Keeps d =
      search (keeps_rules, utcnow-Keeps, keeps_delivery, keeps_event) depth 9

  settle_delivery-Keeps :
      (d : WebhookDelivery) (reply : HttpReply) → Keeps P (settle_delivery env d reply)
  settle_delivery-Keeps d no_response = fail_delivery-Keeps d
  settle_delivery-Keeps d (response code body) =
      search (keeps_rules, complete_delivery-Keeps, fail_delivery-Keeps)

  post_delivery-Keeps : (d : WebhookDelivery) → Keeps P (post_delivery env d)
  unfolding post_delivery
  post_delivery-Keeps d = Keeps-bind _ _ (Keeps-gets _) λ tenant.
      Keeps-bind _ _ utcnow-Keeps
        λ now. Keeps-bind _ _ keeps_draw λ n. search (settle_delivery-Keeps)

  delivery_task-Keeps : (d : Option WebhookDelivery) → Keeps P (delivery_task env d)
  delivery_task-Keeps none = Keeps-pure _
  delivery_task-Keeps (some d) = search (keeps_rules, post_delivery-Keeps)

  pub deliver_webhook-Keeps : (id : ℕ) → Keeps P (deliver_webhook env id)
  unfolding deliver_webhook
  deliver_webhook-Keeps id =
      Keeps-transaction keeps_rollback _ (Keeps-bind _ _ (Keeps-gets _) λ d. delivery_task-Keeps d)

  requeue-Keeps : (s : KycSession) (now : ℕ) (report : Sweep) → Keeps P (requeue env s now report)
  unfolding requeue
  requeue-Keeps s now report = search (keeps_rules, keeps_mark)

  sweep_session-Keeps :
      (s : KycSession) (now : ℕ) (report : Sweep) → Keeps P (sweep_session env s now report)
  unfolding sweep_session
  sweep_session-Keeps s now report = search (keeps_rules, keeps_expire, requeue-Keeps)

  sweep_all-Keeps :
      (rows : List KycSession) (now : ℕ) (report : Sweep) → Keeps P (sweep_all env rows now report)
  unfolding sweep_all
  sweep_all-Keeps [] now report = Keeps-pure _
  sweep_all-Keeps (s ∷ rest) now report =
      Keeps-bind _ _ (sweep_session-Keeps s now report) λ r. sweep_all-Keeps rest now r

  sweep-Keeps : Keeps P (sweep env)
  unfolding sweep
  sweep-Keeps = search (keeps_rules, utcnow-Keeps, sweep_all-Keeps)

  dispatch_all-Keeps : (ds : List Dispatch) → Keeps P (dispatch_all env ds)
  unfolding dispatch_all
  dispatch_all-Keeps [] = Keeps-pure _
  dispatch_all-Keeps (d ∷ rest) = Keeps-bind _ _ (keeps_task d) λ _. dispatch_all-Keeps rest

  pub reconcile_stuck_sessions-Keeps : Keeps P (reconcile_stuck_sessions env)
  unfolding reconcile_stuck_sessions
  reconcile_stuck_sessions-Keeps =
      Keeps-bind _ _ (Keeps-transaction keeps_rollback _ sweep-Keeps)
        λ r. search (keeps_rules, dispatch_all-Keeps)
