-- ===== src/Tests/Trust.antt =====
-- The trust services and the machine readable zone at concrete inputs.
use ekyc.Prelude.{Option, true, false, none, inl, some, ◌≡◌, ◌≢◌, refl, [], ◌∷◌, ◌++◌, arith, map}
use ekyc.Env.{Env, Bytes}
use ekyc.Exec.{ok}
use ekyc.Asn1.{joined}
use ekyc.Tsa.{Walk, walked, children}
use ekyc.Tsa.RoundTrip.{element, children-joined}
use ekyc.Tsa.Walks.{children-ends}
use ekyc.Tsa.Authorities.{TimestampToken, from_url, providers, resolve_policy, timestamp}
use ekyc.Tsa.Honest.{HonestWith, timestamp-Honest}
use ekyc.Tsa.Authorities.{internal_timestamp}
use ekyc.Tsa.Verify.{verify_token}
use ekyc.Tsa.Internal.{SignerLaws, verify_token-internal_timestamp}
use ekyc.Otp.Text.{code_text}
use ekyc.Mrz.{check_digit}
use ekyc.Mrz.Digits.{check_digit-substitution}
use ekyc.Tests.Fixtures.{env, empty_db}

children-joined_example :
    children (joined (map element ((4, 1 ∷ 2 ∷ 3 ∷ []) ∷ (5, []) ∷ [])))
    ≡ walked ((4, 1 ∷ 2 ∷ 3 ∷ []) ∷ (5, []) ∷ [])
children-joined_example =
    children-joined ((4, 1 ∷ 2 ∷ 3 ∷ []) ∷ (5, []) ∷ []) (omega arith, (omega arith, tt))

children-ends_example : children (48 ∷ 130 ∷ 1 ∷ []) ≢ Walk.out_of_fuel
children-ends_example = children-ends (48 ∷ 130 ∷ 1 ∷ [])

-- A qualified authority is configured.
abbrev trusting : Env
trusting = record env { settings = record env.settings { tsa_url = "https://tsa.example" } }

timestamp-Honest_example :
    let (r, db') = timestamp trusting "abcd" "qualified" empty_db in
    ((token : TimestampToken) × (r ≡ ok token))
    × HonestWith trusting (from_url "https://tsa.example") r
unfolding resolve_policy providers
timestamp-Honest_example = timestamp-Honest trusting "abcd" "qualified" empty_db refl

check_digit-substitution_example :
    check_digit (("L" ∷ "8" ∷ []) ++ "3" ∷ ("2" ∷ []))
    ≢ check_digit (("L" ∷ "8" ∷ []) ++ "8" ∷ ("2" ∷ []))
check_digit-substitution_example =
    check_digit-substitution ("L" ∷ "8" ∷ []) "3" "8" ("2" ∷ [])
      (inl (refl, refl, λ e. absurd (omega (arith, e))))

-- Signatures that begin with 0x30, and an encoding that puts an "M" in front.
abbrev unmarked : Bytes → Option Bytes
unmarked [] = none
unmarked (b ∷ rest) = some rest

abbrev signing : Env
signing = record env {
  rsa_sign = λ plain. 48 ∷ [];
  rsa_verify = λ plain signature. true;
  b64encode = λ plain. 77 ∷ plain;
  b64decode = unmarked;
}

signer_laws : SignerLaws signing
signer_laws = record {
  verifies = λ plain. refl;
  begins = λ plain taken. refl;
  decodes = λ plain. refl;
}

verify_token-internal_timestamp_example :
    (token : TimestampToken) × (internal_timestamp signing "abcd" empty_db ≡ (ok token, empty_db))
    × (let report = verify_token signing "abcd" token.token (some token.issued_at) in
        (report.type ≡ "rfc3161")
        × (report.signature_verified ≡ none)
        × (report.imprint_matches ≡ none)
        × (report.structural_ok ≡ false))
unfolding code_text
verify_token-internal_timestamp_example =
    verify_token-internal_timestamp signing signer_laws "abcd" empty_db
