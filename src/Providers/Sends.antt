-- ===== src/Providers/Sends.antt =====
-- app/engines/providers/otp_senders.py: what a send that returns has seen, and the token between sends.
use ekyc.Prelude.{
  ℕ, ◌<◌, String, ◌≡◌, refl, ◌⊎◌, true, false, Option, none, some, List, ltb, arith, Bool-cases,
  inl, inr,
}
use ekyc.Env.{Env, Bytes, HttpReply, no_response, response}
use ekyc.Exec.{Db, Result, ok, err, Exec, pure, raise, utcnow, ◌>>=◌}
use ekyc.Exec.Triple.{Triple, Triple-bind, Triple-pure, Triple-if, Holds, Holds-ok}
use ekyc.Workers.Delivery.{is_success}
use ekyc.Providers.OtpSenders.{
  Wire, Sender, non_empty_text, is_gateway_error, accepted_send, http_send, fetch_token,
  fresh_or_fetch, access_token, oauth_send,
}

module _ (env : Env) (wire : Wire) where
  -- The gateway took a message: it replied with a success code and a body that is not its error.
  abbrev pub Taken : Type 0
  Taken =
      (n : ℕ) × (request : Bytes) × (headers : List (String × String)) × (code : ℕ) × (body : Bytes)
      × (env.http_post n env.settings.otp_http_url request headers ≡ response code body)
      × (is_success code ≡ true)
      × (is_gateway_error env wire body ≡ false)

  always : {A : Type 0} (r : Result A × Db) → Holds Unit (λ a db. Unit) r
  always (ok a, db) = tt
  always (err e, db) = tt

  -- Nothing is claimed of the steps before.
  any : {A : Type 0} (m : Exec A) → Triple Unit (λ db. Unit) m (λ a db. Unit)
  any m = record { at = λ db h. always (m db) }

  accepted_send-Taken :
      (n : ℕ) (request : Bytes) (headers : List (String × String)) (reply : HttpReply)
      → env.http_post n env.settings.otp_http_url request headers ≡ reply
      → Triple Unit (λ db. Unit) (accepted_send env wire reply) (λ u db. Taken)
  unfolding pure raise
  accepted_send-Taken n request headers no_response posted = record { at = λ db h. tt }
  accepted_send-Taken n request headers (response code body) posted = record {
    at = λ db h. elim (Bool-cases (is_success code)) [
      | inr failed ↦ rw failed tt
      | inl success ↦ elim (Bool-cases (is_gateway_error env wire body)) [
        | inl rejected ↦ rw (success, rejected) tt
        | inr clean ↦ rw (success, clean) (n, request, headers, code, body, posted, success, clean)
      ]
    ];
  }

  http_send-Triple :
      (channel destination code : String)
      → Triple Unit (λ db. Unit) (http_send env wire channel destination code) (λ u db. Taken)
  unfolding http_send
  http_send-Triple channel destination code = Triple-bind _ _ (any _) λ u.
      Triple-bind _ _ (any _) λ body. Triple-bind _ _ (any _) λ n. accepted_send-Taken n _ _ _ refl

  oauth_send-Triple :
      (sender : Sender) (channel destination code : String)
      → Triple Unit
          (λ db. Unit)
          (oauth_send env wire sender channel destination code)
          (λ after db. Taken)
  unfolding oauth_send
  oauth_send-Triple sender channel destination code = Triple-bind _ _ (any _) λ body.
      Triple-bind _ _ (any _) λ held.
        let (token, after) = held in
        Triple-bind _ _ (any _)
          λ n. Triple-bind _ _ (accepted_send-Taken n _ _ _ refl) λ u. Triple-pure _ λ db h. h

  -- A send that returns was taken by the gateway: with both senders there is a request to the configured URL that it
  -- answered with a success code and a body that does not have the configured error in the configured field.
  pub send-Taken :
      (sender : Sender) (channel destination code : String) (db : Db) {u : Unit {0}}
      {after : Sender}
      → ((http_send env wire channel destination code db).0 ≡ ok u)
        ⊎ ((oauth_send env wire sender channel destination code db).0 ≡ ok after)
      → Taken
  send-Taken sender channel destination code db (inl sent) =
      Holds-ok _ _ _ ((http_send-Triple channel destination code).at db tt) sent
  send-Taken sender channel destination code db (inr sent) =
      Holds-ok _ _ _ ((oauth_send-Triple sender channel destination code).at db tt) sent

  -- A token that is kept.
  abbrev Kept : String × Sender → Type 0
  Kept (token, after) = after.token ≡ some token

  fetch_token-Kept : Triple Unit (λ db. Unit) (fetch_token env wire) (λ held db. Kept held)
  fetch_token-Kept = Triple-bind _ _ (any _) λ n. Triple-bind _ _ (any _) λ body.
      Triple-bind _ _ (any _) λ payload. Triple-bind _ _ (any _) λ value.
        Triple-bind _ _ (any _) λ seconds. Triple-bind _ _ (any _) λ now. Triple-pure _ λ db h. refl

  fresh_or_fetch-Kept :
      (sender : Sender) (token : Option String) (now : ℕ)
      → sender.token ≡ token
      → Triple Unit (λ db. Unit) (fresh_or_fetch env wire sender token now) (λ held db. Kept held)
  fresh_or_fetch-Kept sender none now own = fetch_token-Kept
  fresh_or_fetch-Kept sender (some token) now own =
      Triple-if _ _ _ (Triple-pure _ λ db h. own) fetch_token-Kept

  access_token-Kept :
      (sender : Sender)
      → Triple Unit (λ db. Unit) (access_token env wire sender) (λ held db. Kept held)
  unfolding access_token
  access_token-Kept sender =
      Triple-bind _ _ (any _) λ now. fresh_or_fetch-Kept sender sender.token now refl

  fresh_or_fetch-fresh :
      (sender : Sender) (held : Option String) {token : String} (db : Db)
      → held ≡ some token
      → non_empty_text token ≡ true
      → ltb db.now sender.token_expiry ≡ true
      → fresh_or_fetch env wire sender held db.now db ≡ (ok (token, sender), db)
  unfolding pure
  fresh_or_fetch-fresh sender held db own named fresh = rw (own, named, fresh) refl

  -- A token is fetched once while it lasts: after `_access_token` has returned one, a later call before the expiry that
  -- the sender holds returns the same token, makes no request and leaves the sender and the database as they are.
  access_token-again :
      (sender : Sender) (db : Db) {token : String} {after : Sender} (later : Db)
      → (access_token env wire sender db).0 ≡ ok (token, after)
      → non_empty_text token ≡ true
      → later.now < after.token_expiry
      → access_token env wire after later ≡ (ok (token, after), later)
  unfolding access_token pure utcnow ◌>>=◌
  access_token-again sender db {token} {after} later fetched named early =
      let own : after.token ≡ some token =
        Holds-ok _ (λ held db. Kept held) _ ((access_token-Kept sender).at db tt) fetched in
      let fresh : ltb later.now after.token_expiry ≡ true = ground arith in
      fresh_or_fetch-fresh after after.token later own named fresh
