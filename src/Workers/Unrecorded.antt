-- ===== src/Workers/Unrecorded.antt =====
-- app/workers/tasks.py, `deliver_webhook`: an endpoint that never accepts.
use ekyc.Prelude.{ℕ, zero, suc, ◌+◌, String, ◌≡◌, refl, ◌∙◌, false, some, List, str_eq}
use ekyc.Models.{WebhookDelivery}
use ekyc.Env.{Env}
use ekyc.Exec.{Db, Result, ok, err, http_error}
use ekyc.Exec.Transaction.{settle-err}
use ekyc.Workers.{retrying, retry_or}
use ekyc.Workers.Delivery.{
  find_delivery, settle_delivery, attempted, deliver_webhook, serialize, run_delivery, is_final,
}
use ekyc.Workers.Delivered.{Failed, posted, undelivered, settled_failure}

-- Every post of the row fails.
abbrev pub Unreachable : Env → WebhookDelivery → Type 0
Unreachable env d =
    (n : ℕ) (headers : List (String × String))
    → Failed (env.http_post n d.url (env.utf8 (serialize env d.payload)) headers)

module _ (env : Env) (id : ℕ) (d : WebhookDelivery) (waiting : str_eq d.status "DELIVERED" ≡ false)
    (fails : Unreachable env d) where
  -- The task raised, and the rows are those of before.
  abbrev pub Unrecorded : Db → Result String × Db → Type 0
  Unrecorded db (r, db') =
      (r ≡ err http_error) × (db'.deliveries ≡ db.deliveries) × (db'.events ≡ db.events)

  once-Unrecorded :
      (db : Db)
      → find_delivery id db.deliveries ≡ some d
      → Unrecorded db (deliver_webhook env id db)
  unfolding posted
  once-Unrecorded db found =
      let reply = posted env db.serial d db in
      rw (undelivered env id d db found waiting) (
        rw
          (settle-err db
            (settle_delivery env (attempted env d reply) reply
              (record db { serial = db.serial + 1 }))
            http_error (settled_failure env (attempted env d reply) reply _ (fails db.serial _)))
          (refl, refl, refl))

  retry_or-Unrecorded :
      (n : ℕ) (db : Db) (r : Result String × Db)
      → find_delivery id db.deliveries ≡ some d
      → Unrecorded db r
      → ((db : Db)
          → find_delivery id db.deliveries ≡ some d
          → Unrecorded db (retrying n is_final (deliver_webhook env id) db))
      → Unrecorded db (retry_or is_final (retrying n is_final (deliver_webhook env id)) r)
  retry_or-Unrecorded n db (ok text, db') found (e, rows, log) again = cc
  retry_or-Unrecorded n db (err x, db') found (e, rows, log) again =
      let final : x ≡ http_error = cc in
      rw final (let (e', rows', log') = again db' (rw rows found) in (e', rows' ∙ rows, log' ∙ log))

  retrying-Unrecorded :
      (n : ℕ) (db : Db)
      → find_delivery id db.deliveries ≡ some d
      → Unrecorded db (retrying n is_final (deliver_webhook env id) db)
  unfolding retrying
  retrying-Unrecorded zero db found = once-Unrecorded db found
  retrying-Unrecorded (suc n) db found =
      retry_or-Unrecorded n db (deliver_webhook env id db) found (once-Unrecorded db found)
        (retrying-Unrecorded n)

-- While every post of a waiting delivery fails, its task raises after all its retries, and the rows and the audit
-- log are what they were: the attempts, the status FAILED and the WEBHOOK_FAILED events are rolled back.
pub run_delivery-unrecorded :
    (env : Env) (id : ℕ) (d : WebhookDelivery) (db : Db)
    → find_delivery id db.deliveries ≡ some d
    → str_eq d.status "DELIVERED" ≡ false
    → Unreachable env d
    → let (r, db') = run_delivery env id db in
      (r ≡ err http_error) × (db'.deliveries ≡ db.deliveries) × (db'.events ≡ db.events)
run_delivery-unrecorded env id d db found waiting fails =
    retrying-Unrecorded env id d waiting fails env.settings.webhook_max_attempts db found
