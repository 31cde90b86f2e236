-- ===== src/Tsa/Honest.antt =====
-- app/engines/tsa.py: a token is qualified only if a qualified authority has given it.
use ekyc.Prelude.{
  ℕ, String, ◌≡◌, ◌⊎◌, ◌∙◌, refl, Bool-cases, Option-cases, inl, inr, true, Option, none, some,
  List, str_eq,
}
use ekyc.Env.{Env, Bytes, HttpReply, no_response, response}
use ekyc.Exec.{Db, Exn, http_error, Result, ok, err, raise, pure, lift, utcnow, draw, ◌>>=◌}
use ekyc.Orchestrator.{truthy}
use ekyc.Asn1.{build_timestamp_request}
use ekyc.Workers.Delivery.{is_success}
use ekyc.Tsa.Authorities.{
  TsaProvider, TimestampToken, resolve_policy, accepted, token_of, external_timestamp,
  internal_timestamp, or_soft, timestamp_at, timestamp,
}

module _ (env : Env) where
  -- The token is the body of a reply with a success code.
  abbrev pub Answered : String → Bytes → Type 0
  Answered endpoint token =
      (n : ℕ) × (request : Bytes) × (headers : List (String × String)) × (code : ℕ) × (env.http_post
          n endpoint request headers
        ≡ response code token)
      × (is_success code ≡ true)

  -- What is known of the result of `timestamp` with a provider.
  abbrev pub HonestWith : TsaProvider → Result TimestampToken → Type 0
  HonestWith provider (err e) = Unit
  HonestWith provider (ok token) =
      token.qualified ≡ true
      → (provider.qualified ≡ true)
        × ((endpoint : String) × (truthy provider.endpoint ≡ some endpoint)
            × Answered endpoint token.token)

  -- The reply is refused, or it is one with a success code and its body is accepted.
  accepted-cases :
      (reply : HttpReply) (db : Db)
      → ((e : Exn) × (accepted env reply db ≡ (err e, db)))
        ⊎ ((code : ℕ) × (body : Bytes) × (reply ≡ response code body)
            × (is_success code ≡ true)
            × (accepted env reply db ≡ (ok body, db)))
  unfolding raise pure
  accepted-cases no_response db = inl (http_error, refl)
  accepted-cases (response code body) db = elim (Bool-cases (is_success code)) [
    | inl success ↦ inr (code, body, refl, success, rw success refl)
    | inr failed ↦ inl (http_error, rw failed refl)
  ]

  token_of-Honest :
      (provider : TsaProvider) (endpoint : String) (n : ℕ) (request : Bytes)
      (headers : List (String × String)) (reply : HttpReply) (db : Db)
      → truthy provider.endpoint ≡ some endpoint
      → env.http_post n endpoint request headers ≡ reply
      → HonestWith provider (token_of env provider endpoint reply db).0
  unfolding token_of utcnow ◌>>=◌
  token_of-Honest provider endpoint n request headers reply db own posted =
      elim (accepted-cases reply db) [
        | inl (e, refused) ↦ rw refused tt
        | inr (code, body, answer, success, passed) ↦ rw passed λ claimed.
            (claimed, (endpoint, own, (n, request, headers, code, posted ∙ answer, success)))
      ]

  external_timestamp-Honest :
      (digest : String) (provider : TsaProvider) (endpoint : String) (db : Db)
      → truthy provider.endpoint ≡ some endpoint
      → HonestWith provider (external_timestamp env digest provider endpoint db).0
  unfolding external_timestamp build_timestamp_request draw ◌>>=◌
  external_timestamp-Honest digest provider endpoint db own =
      elim (Option-cases (env.fromhex digest)) [
        | inl bad ↦ rw bad tt
        | inr (plain, read) ↦ rw read (token_of-Honest provider endpoint _ _ _ _ _ own refl)
      ]

  internal_timestamp-Honest :
      (digest : String) (provider : TsaProvider) (db : Db)
      → HonestWith provider (internal_timestamp env digest db).0
  unfolding internal_timestamp utcnow ◌>>=◌
  internal_timestamp-Honest digest provider db claimed = cc

  or_soft-Honest :
      (digest : String) (provider : TsaProvider) (r : Result TimestampToken) (db : Db)
      → HonestWith provider r
      → HonestWith provider (or_soft env digest (r, db)).0
  or_soft-Honest digest provider (ok token) db h = h
  or_soft-Honest digest provider (err e) db h = internal_timestamp-Honest digest provider db

  timestamp_at-Honest :
      (digest : String) (provider : TsaProvider) (endpoint : Option String) (db : Db)
      → truthy provider.endpoint ≡ endpoint
      → HonestWith provider (timestamp_at env digest provider endpoint db).0
  timestamp_at-Honest digest provider none db own = internal_timestamp-Honest digest provider db
  timestamp_at-Honest digest provider (some endpoint) db own =
      elim (Bool-cases (str_eq provider.mode "external")) [
        | inl external ↦ rw external (
            let (r, db') = external_timestamp env digest provider endpoint db in
            or_soft-Honest digest provider r db'
              (external_timestamp-Honest digest provider endpoint db own))
        | inr other ↦ rw other (internal_timestamp-Honest digest provider db)
      ]

  -- The soft token is given whatever the authority does.
  or_soft-total :
      (digest : String) (r : Result TimestampToken) (db : Db)
      → (token : TimestampToken) × ((or_soft env digest (r, db)).0 ≡ ok token)
  unfolding internal_timestamp utcnow ◌>>=◌ pure
  or_soft-total digest (ok token) db = (token, refl)
  or_soft-total digest (err e) db = (_, refl)

  timestamp_at-total :
      (digest : String) (provider : TsaProvider) (endpoint : Option String) (db : Db)
      → (token : TimestampToken) × ((timestamp_at env digest provider endpoint db).0 ≡ ok token)
  unfolding internal_timestamp utcnow ◌>>=◌ pure
  timestamp_at-total digest provider none db = (_, refl)
  timestamp_at-total digest provider (some endpoint) db =
      elim (Bool-cases (str_eq provider.mode "external")) [
        | inl external ↦ rw external (
            let (r, db') = external_timestamp env digest provider endpoint db in
            or_soft-total digest r db')
        | inr other ↦ rw other (_, refl)
      ]

-- Where the policy names an authority or the platform, `timestamp` returns a token, whatever the authority does;
-- and the token is qualified only if the authority is, and its bytes are then the body that the authority's
-- endpoint sent with a success code.
pub timestamp-Honest :
    (env : Env) (digest policy : String) (db : Db) {provider : TsaProvider}
    → resolve_policy env.settings policy ≡ ok provider
    → let (r, db') = timestamp env digest policy db in
      ((token : TimestampToken) × (r ≡ ok token)) × HonestWith env provider r
unfolding timestamp lift ◌>>=◌
timestamp-Honest env digest policy db {provider} known = rw known (
  timestamp_at-total env digest provider (truthy provider.endpoint) db,
  timestamp_at-Honest env digest provider (truthy provider.endpoint) db refl,
)
