-- ===== src/Workers/Delivered.antt =====
-- app/workers/tasks.py, `deliver_webhook`: running it again.
use ekyc.Prelude.{
  ℕ, ◌+◌, String, ◌≡◌, refl, sym, ◌∙◌, ap, ◌⊎◌, Bool-cases, Option-cases, inl, inr, true, false,
  none, some, List, [], ◌∷◌, str_eq, eq_iff, arith,
}
use ekyc.Models.{WebhookDelivery}
use ekyc.Env.{Env, Bytes, HttpReply, no_response, response}
use ekyc.Exec.{Db, Result, ok, err, Exec, http_error, transaction, settle, draw, utcnow, ◌>>=◌}
use ekyc.Exec.Transaction.{settle-ok, settle-err}
use ekyc.Audit.{record_event}
use ekyc.Store.{find_tenant}
use ekyc.Workers.Delivery.{
  find_delivery, replace_delivery, save_delivery, is_success, fail_delivery, complete_delivery,
  settle_delivery, attempted, post_delivery, deliver_webhook, serialize, signed_headers, secret_of,
}

pub find_delivery-id :
    (id : ℕ) (d : WebhookDelivery) (rows : List WebhookDelivery)
    → find_delivery id rows ≡ some d
    → d.id ≡ id
find_delivery-id id d [] h = cc
find_delivery-id id d (e ∷ rest) h = ground (arith, find_delivery-id id d rest)

-- A row that is written back is found, where there was one with its id.
pub find_delivery-replace :
    (id : ℕ) (d old : WebhookDelivery) (rows : List WebhookDelivery)
    → d.id ≡ id
    → find_delivery id rows ≡ some old
    → find_delivery id (replace_delivery d rows) ≡ some d
find_delivery-replace id d old [] own h = cc
find_delivery-replace id d old (e ∷ rest) own h =
    ground (arith, find_delivery-replace id d old rest)

-- A reply that `raise_for_status` does not let pass, or none.
abbrev pub Failed : HttpReply → Type 0
Failed no_response = Unit
Failed (response code body) = is_success code ≡ false

reply_cases :
    (reply : HttpReply)
    → Failed reply
      ⊎ ((code : ℕ) × (body : Bytes) × (reply ≡ response code body) × (is_success code ≡ true))
reply_cases no_response = inl tt
reply_cases (response code body) = elim (Bool-cases (is_success code)) [
  | inl success ↦ inr (code, body, refl, success)
  | inr failed ↦ inl failed
]

module _ (env : Env) where
  fail_delivery-raises :
      (d : WebhookDelivery) (db : Db) → (fail_delivery env d db).0 ≡ err http_error
  unfolding fail_delivery save_delivery record_event utcnow ◌>>=◌
  fail_delivery-raises d db = elim (Bool-cases (str_eq d.session_id "")) [
    | inl blank ↦ rw blank refl
    | inr owned ↦ rw owned refl
  ]

  complete_delivery-effect :
      (d : WebhookDelivery) (db : Db)
      → let (r, db') = complete_delivery env d db in
        (r ≡ ok "DELIVERED")
        × (db'.deliveries
            ≡ replace_delivery
                (record d { status = "DELIVERED"; delivered_at = some db.now })
                db.deliveries)
  unfolding complete_delivery save_delivery record_event utcnow ◌>>=◌
  complete_delivery-effect d db = elim (Bool-cases (str_eq d.session_id "")) [
    | inl blank ↦ rw blank (refl, refl)
    | inr owned ↦ rw owned (refl, refl)
  ]

  -- A row that is delivered is not posted.
  delivered_stays :
      (id : ℕ) (d : WebhookDelivery) (db : Db)
      → find_delivery id db.deliveries ≡ some d
      → d.status ≡ "DELIVERED"
      → deliver_webhook env id db ≡ (ok "DELIVERED", db)
  unfolding deliver_webhook transaction ◌>>=◌
  delivered_stays id d db found delivered = rw (found, delivered) refl

  missing_stays :
      (id : ℕ) (db : Db)
      → find_delivery id db.deliveries ≡ none
      → deliver_webhook env id db ≡ (ok "MISSING_DELIVERY", db)
  unfolding deliver_webhook transaction ◌>>=◌
  missing_stays id db missing = rw missing refl

  unfoldable pub posted : ℕ → WebhookDelivery → Db → HttpReply
  posted n d db = env.http_post n d.url (env.utf8 (serialize env d.payload)) (
      signed_headers env (secret_of (find_tenant d.tenant_id db.tenants)) db.now
        (serialize env d.payload) d.event)

  -- A row that is not delivered: the reply to the post decides.
  pub undelivered :
      (id : ℕ) (d : WebhookDelivery) (db : Db)
      → find_delivery id db.deliveries ≡ some d
      → str_eq d.status "DELIVERED" ≡ false
      → deliver_webhook env id db
        ≡ settle db (
            settle_delivery env
              (attempted env d (posted db.serial d db))
              (posted db.serial d db)
              (record db { serial = db.serial + 1 }))
  unfolding deliver_webhook post_delivery transaction ◌>>=◌ draw utcnow posted
  undelivered id d db found waiting = rw (found, waiting) refl

  pub settled_failure :
      (d : WebhookDelivery) (reply : HttpReply) (db : Db)
      → Failed reply
      → (settle_delivery env d reply db).0 ≡ err http_error
  settled_failure d no_response db h = fail_delivery-raises d db
  settled_failure d (response code body) db h = rw h (fail_delivery-raises d db)

  settled_delivery :
      (d : WebhookDelivery) (reply : HttpReply) (code : ℕ) (body : Bytes) (db : Db)
      → reply ≡ response code body
      → is_success code ≡ true
      → settle_delivery env d reply db ≡ complete_delivery env d db
  settled_delivery d reply code body db e success = rw (e, success) refl

  -- The row is stored as delivered, and the task returned.
  abbrev Delivered : ℕ → Result String × Db → Type 0
  Delivered id (r, db) =
      (r ≡ ok "DELIVERED")
      × (d : WebhookDelivery) × (find_delivery id db.deliveries ≡ some d)
      × (d.status ≡ "DELIVERED")

  settled_success :
      (id : ℕ) (d : WebhookDelivery) (reply : HttpReply) (db before : Db)
      → find_delivery id db.deliveries ≡ some d
      → Delivered id (settle before (complete_delivery env (attempted env d reply) db))
  settled_success id d reply db before found =
      let (e, rows) = complete_delivery-effect (attempted env d reply) db in
      rw (settle-ok before (complete_delivery env (attempted env d reply) db) "DELIVERED" e) (
        e,
        record (attempted env d reply) { status = "DELIVERED"; delivered_at = some db.now },
        rw rows (
            find_delivery-replace id _ d db.deliveries (find_delivery-id id d db.deliveries found)
              found),
        refl,
      )

  outcome :
      (id : ℕ) (d : WebhookDelivery) (db : Db)
      → find_delivery id db.deliveries ≡ some d
      → str_eq d.status "DELIVERED" ≡ false
      → ((deliver_webhook env id db).0 ≡ err http_error) ⊎ Delivered id (deliver_webhook env id db)
  outcome id d db found waiting =
      let reply = posted db.serial d db in
      rw (undelivered id d db found waiting) (elim (reply_cases reply) [
        | inl failed ↦
            inl (ap (λ r. r.0) (settle-err db _ http_error (settled_failure _ reply _ failed)))
        | inr (code, body, e, success) ↦ inr (
            rw
              (settled_delivery (attempted env d reply) reply code body
                (record db { serial = db.serial + 1 }) e success)
              (settled_success id d reply (record db { serial = db.serial + 1 }) db found))
      ])

-- An operation that changes nothing does the same when it runs again.
repeat :
    (f : Exec String) (db : Db) (t text : String)
    → f db ≡ (ok t, db)
    → (f db).0 ≡ ok text
    → f (f db).1 ≡ (ok text, (f db).1)
repeat f db t text e returned = ap (λ x. f x.1) e ∙ ap (λ r. (r, (f db).1)) returned

-- A delivery that has returned may run again: the second run returns the same text and changes nothing, so an
-- endpoint that has accepted an event is not notified of it a second time.
pub deliver_webhook-again :
    (env : Env) (id : ℕ) (db : Db) (text : String)
    → (deliver_webhook env id db).0 ≡ ok text
    → let db' = (deliver_webhook env id db).1 in deliver_webhook env id db' ≡ (ok text, db')
deliver_webhook-again env id db text returned =
    elim (Option-cases (find_delivery id db.deliveries)) [
      | inl missing ↦
          repeat (deliver_webhook env id) db _ text (missing_stays env id db missing) returned
      | inr (d, found) ↦ elim (Bool-cases (str_eq d.status "DELIVERED")) [
        | inl delivered ↦
            repeat (deliver_webhook env id) db _ text
              (delivered_stays env id d db found ((eq_iff d.status "DELIVERED").0 delivered))
              returned
        | inr waiting ↦ elim (outcome env id d db found waiting) [
          | inl failed ↦ cc
          | inr (e, d', found', delivered) ↦
              delivered_stays env id d' (deliver_webhook env id db).1 found' delivered
              ∙ ap (λ r. (r, (deliver_webhook env id db).1)) (sym e ∙ returned)
        ]
      ]
    ]
