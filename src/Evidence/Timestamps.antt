-- ===== src/Evidence/Timestamps.antt =====
-- app/services/evidence.py, the timestamp of a sealing, whatever the authority answers.
use ekyc.Prelude.{String, ◌≡◌, refl, Option, none, some, inl, inr, Bool-cases, str_eq}
use ekyc.Env.{Env, HttpReply, no_response, response}
use ekyc.Exec.{Db, Exn, Result, ok, err, draw, utcnow, ◌>>=◌}
use ekyc.Exec.Keeps.{Keeps, Keeps-pure, Keeps-raise, Keeps-bind, Keeps-lift, keeps_rules}
use ekyc.Frame.Operations.{utcnow-Keeps, or_raise-Keeps}
use ekyc.Asn1.{build_timestamp_request}
use ekyc.Exec.Triple.{Triple-obtain, Triple-returns, Triple, Triple-lift}
use ekyc.Tsa.Authorities.{
  TsaProvider, TimestampToken, resolve_policy, external_timestamp, internal_timestamp, or_soft,
  timestamp_at, timestamp, accepted, token_of,
}

module _ (env : Env) {P : Db → Type 0} (keeps_draw : Keeps P draw) where
  accepted-Keeps : (reply : HttpReply) → Keeps P (accepted env reply)
  accepted-Keeps no_response = Keeps-raise _
  accepted-Keeps (response code body) = search keeps_rules

  external_timestamp-Keeps :
      (digest : String) (provider : TsaProvider) (endpoint : String)
      → Keeps P (external_timestamp env digest provider endpoint)
  unfolding external_timestamp build_timestamp_request token_of
  external_timestamp-Keeps digest provider endpoint = Keeps-bind _ _ (or_raise-Keeps _ _) λ plain.
      Keeps-bind _ _ (Keeps-bind _ _ keeps_draw λ n. Keeps-pure _) λ request.
        Keeps-bind _ _ keeps_draw λ n.
          Keeps-bind _ _ (search accepted-Keeps)
            λ body. Keeps-bind _ _ utcnow-Keeps λ now. Keeps-pure _

  internal_timestamp-Keeps : (digest : String) → Keeps P (internal_timestamp env digest)
  unfolding internal_timestamp
  internal_timestamp-Keeps digest = Keeps-bind _ _ utcnow-Keeps λ now. Keeps-pure _

  or_soft-Keeps :
      (digest : String) (r : Result TimestampToken) (db : Db)
      → P db
      → P (or_soft env digest (r, db)).1
  or_soft-Keeps digest (ok t) db h = h
  or_soft-Keeps digest (err e) db h = (internal_timestamp-Keeps digest).at db h

  timestamp_at-Keeps :
      (digest : String) (provider : TsaProvider) (endpoint : Option String)
      → Keeps P (timestamp_at env digest provider endpoint)
  timestamp_at-Keeps digest provider none = record { at = (internal_timestamp-Keeps digest).at }
  timestamp_at-Keeps digest provider (some endpoint) = record {
    at = λ db h. elim (Bool-cases (str_eq provider.mode "external")) [
      | inl external ↦
          let (r, db') = external_timestamp env digest provider endpoint db in
          rw external (
            or_soft-Keeps digest r db'
              ((external_timestamp-Keeps digest provider endpoint).at db h))
      | inr internal ↦ rw internal ((internal_timestamp-Keeps digest).at db h)
    ];
  }

  pub timestamp-Keeps : (digest policy : String) → Keeps P (timestamp env digest policy)
  unfolding timestamp
  timestamp-Keeps digest policy =
      Keeps-bind _ _ (Keeps-lift _) λ provider. timestamp_at-Keeps digest provider _

module _ (env : Env) where
  or_soft-returns :
      (digest : String) (r : Result TimestampToken × Db)
      → (t : TimestampToken) × ((or_soft env digest r).0 ≡ ok t)
  unfolding internal_timestamp utcnow ◌>>=◌
  or_soft-returns digest (ok t, db) = (t, refl)
  or_soft-returns digest (err e, db) = (_, refl)

  timestamp_at-returns :
      (digest : String) (provider : TsaProvider) (endpoint : Option String) (db : Db)
      → (t : TimestampToken) × ((timestamp_at env digest provider endpoint db).0 ≡ ok t)
  unfolding internal_timestamp utcnow ◌>>=◌
  timestamp_at-returns digest provider none db = (_, refl)
  timestamp_at-returns digest provider (some endpoint) db =
      elim (Bool-cases (str_eq provider.mode "external")) [
        | inl external ↦ rw external (or_soft-returns digest _)
        | inr internal ↦ rw internal (_, refl)
      ]

  -- Whatever the authority answers, the token is there once the authority is known.
  pub timestamp-Triple :
      {E : Type 0} {P : Db → Type 0} (digest policy : String)
      → Keeps P draw
      → ((e : Exn) → resolve_policy env.settings policy ≡ err e → E)
      → Triple E P (timestamp env digest policy) (λ t. P)
  unfolding timestamp
  timestamp-Triple digest policy keeps_draw failed =
      Triple-obtain _ _ (Triple-lift _ failed) λ provider known.
        Triple-returns _ (timestamp_at-Keeps env keeps_draw digest provider _)
          (timestamp_at-returns digest provider _)
