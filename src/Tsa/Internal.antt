-- ===== src/Tsa/Internal.antt =====
-- The platform's own timestamps verify.
use ekyc.Prelude.{
  String, concat, ◌≡◌, refl, sym, true, leb, not, none, some, [], ◌∷◌, Bool-cases, inl, inr, arith,
  if◌then◌else◌,
}
use mathlib.Core.Path.{subst}
use ekyc.Env.{Env, Bytes}
use ekyc.Exec.{Db, ok, utcnow, ◌>>=◌}
use ekyc.Vault.{starts_with}
use ekyc.Tsa.Authorities.{TimestampToken, internal_timestamp}
use ekyc.Tsa.{read_tlv}
use ekyc.Tsa.Verify.{unread, verify_rfc3161, verify_internal, verify_token}

-- What the code relies on: a signature of the signer verifies, and base64 decodes what it encoded.
pub record SignerLaws (env : Env) : Type 0 where
  pub verifies : (plain : Bytes) → env.rsa_verify plain (env.rsa_sign plain) ≡ true
  -- base64 writes a first byte 0x30 with a first letter "M"
  pub begins :
      (plain : Bytes)
      → starts_with (48 ∷ []) plain ≡ true
      → starts_with (77 ∷ []) (env.b64encode plain) ≡ true
  pub decodes : (plain : Bytes) → env.b64decode (env.b64encode plain) ≡ some plain

-- A reply of an authority begins with 0x30, so a text that begins with "M" is none.
verify_rfc3161-unread :
    (env : Env) (digest : String) (token : Bytes)
    → starts_with (77 ∷ []) token ≡ true
    → verify_rfc3161 env digest token ≡ unread
unfolding verify_rfc3161 read_tlv
verify_rfc3161-unread env digest [] begins = cc
verify_rfc3161-unread env digest (b ∷ []) begins = refl
verify_rfc3161-unread env digest (b ∷ size ∷ rest) begins =
    let letter : b ≡ 77 = ground (arith, begins) in
    let foreign : verify_rfc3161 env digest (77 ∷ size ∷ rest) ≡ unread =
      elim (Bool-cases (leb 128 size)) [ inl long ↦ rw long refl | inr short ↦ rw short refl ] in
    subst (λ c. verify_rfc3161 env digest (c ∷ size ∷ rest) ≡ unread) (sym letter) foreign

-- What `verify_token` says of a soft timestamp of the platform, against its digest and its time, depends on the first
-- byte of the signature. If it is not 0x30, the report is of a soft timestamp, sound, with a signature that verifies
-- and an imprint that matches; if it is 0x30, the valid token is reported as an unsound one of an authority, with
-- neither.
pub verify_token-internal_timestamp :
    (env : Env)
    → SignerLaws env
    → (digest : String) (db : Db)
    → let taken =
        starts_with
          (48 ∷ [])
          (env.rsa_sign (env.utf8 (concat digest (concat "|" (env.isoformat db.now))))) in
      (token : TimestampToken) × (internal_timestamp env digest db ≡ (ok token, db))
      × (let report = verify_token env digest token.token (some token.issued_at) in
          (report.type ≡ (if taken then "rfc3161" else "internal-soft-timestamp"))
          × (report.signature_verified ≡ (if taken then none else some true))
          × (report.imprint_matches ≡ (if taken then none else some true))
          × (report.structural_ok ≡ not taken))
unfolding internal_timestamp verify_token verify_internal utcnow ◌>>=◌
verify_token-internal_timestamp env laws digest db =
    let signature = env.rsa_sign (env.utf8 (concat digest (concat "|" (env.isoformat db.now)))) in
    elim (Bool-cases (starts_with (48 ∷ []) signature)) [
      | inl taken ↦
          let lost =
            verify_rfc3161-unread env digest (env.b64encode signature)
              (laws.begins signature taken) in
          (_, refl, rw (laws.decodes, taken, lost) (refl, refl, refl, refl))
      | inr own ↦ (_, refl, rw (laws.decodes, own, laws.verifies) (refl, refl, refl, refl))
    ]
