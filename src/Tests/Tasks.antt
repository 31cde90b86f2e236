-- ===== src/Tests/Tasks.antt =====
-- Background work at concrete inputs.
use ekyc.Prelude.{◌+◌, String, ◌≡◌, refl, Option, none, some, [], ◌∷◌, length}
use ekyc.Json.{end}
use ekyc.Enums.{SessionStatus, Step, CheckStatus, DocumentType, ArtifactKind}
use ekyc.Models.{KycSession, Document, Artifact, WebhookDelivery}
use ekyc.Env.{Env, no_response}
use ekyc.Exec.{Db, Exn, ok, err, http_error, transaction, utcnow, draw, ◌>>=◌}
use ekyc.Audit.{record_event, valid, verify_chain, events_of}
use ekyc.Audit.Chain.{head_hash}
use ekyc.Policy.{get_policy}
use ekyc.Store.{find_session}
use ekyc.Workers.{processing_failed}
use ekyc.Workers.Delivered.{deliver_webhook-again}
use ekyc.Workers.Unrecorded.{run_delivery-unrecorded}
use ekyc.Workers.Delivery.{
  complete_delivery, post_delivery, save_delivery, deliver_webhook, run_delivery,
}
use ekyc.Workers.Failures.{processing_failed-review, reviewed}
use ekyc.Api.Guards.{capture, otp_verify}
use ekyc.Frame.Tasks.{
  answer, document, delivery, reconcile, work_on, Worked, idle, work, pause, verify_chain-Worked,
}
use ekyc.Frame.Terminal.{HasStatus}
use ekyc.Frame.Tasks.Terminal.{AllWorkSpare, status-Worked}
use ekyc.Tests.Fixtures.{env, empty_db, open_session, verified_session, passed_checks}

abbrev pending_checks : Step → Option CheckStatus
pending_checks Step.document_verification = some CheckStatus.pending
pending_checks s = passed_checks s

abbrev pending_session : KycSession
pending_session = record open_session { checks = pending_checks }

abbrev scan : Artifact
scan = record {
  id = 1;
  tenant_id = "t1";
  session_id = some "s1";
  kind = ArtifactKind.document_image;
  storage_key = "tenant/t1/scan";
  vault_profile = "default";
  content_type = "image/png";
  size_bytes = 3;
  sha256 = "#";
  created_at = 50;
  purged_at = none;
}

abbrev passport : Document
passport = record {
  id = 1;
  session_id = "s1";
  tenant_id = "t1";
  document_type = DocumentType.passport;
  artifact_id = 1;
  ocr = end;
  verification = end;
  status = CheckStatus.pending;
  confidence = record { bits = 0 };
  created_at = 50;
  processed_at = none;
}

abbrev hook : WebhookDelivery
hook = record {
  id = 3;
  tenant_id = "t1";
  session_id = "s1";
  event = "KYC_VERIFIED";
  url = "https://insurer.example/hook";
  payload = end;
  status = "PENDING";
  attempts = 0;
  response_code = none;
  last_error = none;
  created_at = 60;
  delivered_at = none;
}

-- A session with a document that waits for its task, and a webhook that waits for its delivery.
abbrev task_db : KycSession → Db
task_db s = record empty_db {
  now = 100;
  sessions = s ∷ [];
  documents = passport ∷ [];
  artifacts = scan ∷ [];
  deliveries = hook ∷ [];
}

abbrev describe : Exn → String
describe e = "error"

-- A code is entered and the document processed; later the webhook is posted and stuck sessions are looked for.
abbrev worked_db : KycSession → Db
worked_db s =
    let db = work_on env describe (delivery 3) (
      work_on env describe (document 1)
        (work_on env describe (answer s (capture (otp_verify "1234"))) (task_db s))) in
    work_on env describe reconcile (record db { now = db.now + 30 })

worked : (s : KycSession) → Worked env describe (task_db s) (worked_db s)
worked s =
    work
      (pause
        (work (work (work idle (answer s (capture (otp_verify "1234")))) (document 1)) (delivery 3))
        30)
      reconcile

verify_chain-Worked_example : verify_chain env "s1" (worked_db pending_session) ≡ (
  ok (
      valid
        (length (events_of "s1" (worked_db pending_session).events))
        (head_hash env none (events_of "s1" (worked_db pending_session).events))),
  worked_db pending_session,
)
verify_chain-Worked_example =
    verify_chain-Worked env describe {start = task_db pending_session} refl (worked pending_session)
      "s1"

worked-spares : (s : KycSession) → AllWorkSpare env describe "s1" (worked s)
unfolding AllWorkSpare worked
worked-spares s = ((((tt, tt), tt), tt), tt)

status-Worked_example : HasStatus "s1" SessionStatus.verified (worked_db verified_session)
status-Worked_example =
    status-Worked env describe "s1" SessionStatus.verified refl (verified_session, refl, refl)
      (worked verified_session) (worked-spares verified_session)

processing_failed-review_example :
    let db' =
      (processing_failed env "error" "ekyc.process_document" "s1"
        (Step.document_verification ∷ [])
        (task_db pending_session)).1 in
    (t : KycSession) × (find_session "s1" db'.sessions ≡ some t)
    × ((j : Step) → t.checks j ≡ reviewed pending_session (Step.document_verification ∷ []) j)
unfolding get_policy
processing_failed-review_example =
    processing_failed-review env "error" "ekyc.process_document" "s1"
      (Step.document_verification ∷ []) (task_db pending_session) refl refl refl

delivered : (deliver_webhook env 3 (task_db pending_session)).0 ≡ ok "DELIVERED"
unfolding deliver_webhook transaction complete_delivery post_delivery save_delivery record_event
    utcnow draw ◌>>=◌
delivered = refl

deliver_webhook-again_example :
    let db' = (deliver_webhook env 3 (task_db pending_session)).1 in
    deliver_webhook env 3 db' ≡ (ok "DELIVERED", db')
deliver_webhook-again_example =
    deliver_webhook-again env 3 (task_db pending_session) "DELIVERED" delivered

-- The endpoint of the tenant does not answer.
abbrev silent : Env
silent = record env { http_post = λ n url body headers. no_response }

run_delivery-unrecorded_example :
    let (r, db') = run_delivery silent 3 (task_db pending_session) in
    (r ≡ err http_error) × (db'.deliveries ≡ hook ∷ []) × (db'.events ≡ [])
run_delivery-unrecorded_example =
    run_delivery-unrecorded silent 3 hook (task_db pending_session) refl refl λ n headers. tt
