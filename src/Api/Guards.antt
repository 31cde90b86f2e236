-- ===== src/Api/Guards.antt =====
-- The guards of the calls of app/api/v1/verification.py, and of the sessions of a caller.
use ekyc.Prelude.{
  String, concat, ◌≡◌, refl, arith, ◌||◌, Bool, true, false, Bool-cases, inl, inr, Option, leb,
  if◌then◌else◌,
}
use ekyc.Enums.{DocumentType, OtpChannel, is_terminal, session_status_str}
use ekyc.Models.{KycSession}
use ekyc.Env.{Env}
use ekyc.Exec.{Db, Exn, ok, err, http, Exec, pure, lift, utcnow, transaction, ◌>>=◌, ◌>>◌}
use ekyc.Policy.{FlowPolicy}
use ekyc.Kyc.Session
use ekyc.Kyc.Session.{policy_of, consent_given, ensure_active}
use ekyc.Api.{raising_as, require_open}
use ekyc.Api.Verification
use ekyc.Api.Verification.{
  Upload, consent, capture_document, upload_document, capture_selfie, upload_selfie, demand_consent,
}

-- A call that captures data of the end user.
pub data Capture : Type 0 where
  document : Option String → DocumentType → Upload → Capture
  selfie : Option String → Upload → Capture
  otp_send : OtpChannel → String → Capture
  otp_verify : String → Capture

abbrev pub capture_on : Env → KycSession → Capture → Exec (Unit {0})
capture_on env s (document ip type file) = upload_document env s ip type file >> pure tt
capture_on env s (selfie ip file) = upload_selfie env s ip file >> pure tt
capture_on env s (otp_send channel destination) =
    Verification.send_otp env s channel destination >> pure tt
capture_on env s (otp_verify code) = Verification.verify_otp env s code >> pure tt

-- The calls of the end user, whose page app/api/v1/verification.py serves.
pub data Call : Type 0 where
  give_consent : Bool → String → Option String → Option String → Call
  capture : Capture → Call

abbrev pub call_on : Env → KycSession → Call → Exec (Unit {0})
call_on env s (give_consent accepted version ip agent) =
    consent env s accepted version ip agent >> pure tt
call_on env s (capture c) = capture_on env s c

-- The answer to a session that is decided, or past its time to live.
abbrev pub refusal : KycSession → Exn
refusal s =
    if is_terminal s.status
    then http 409 (concat "Session is already " (session_status_str s.status))
    else http 410 "Session expired"

module _ (env : Env) (s : KycSession) (db : Db) where
  require_open-closed :
      (is_terminal s.status || leb s.expires_at db.now) ≡ true
      → require_open s db ≡ (err (refusal s), db)
  unfolding require_open raising_as ensure_active utcnow ◌>>=◌
  require_open-closed closed = elim (Bool-cases (is_terminal s.status)) [
    | inl terminal ↦ rw terminal refl
    | inr running ↦
        let late : leb s.expires_at db.now ≡ true = ground arith in rw (running, late) refl
  ]

  -- Every call of the end user (consent, document, selfie, code sent or verified) refuses a session that is decided, with 409, or past its time to live, with
  -- 410, and leaves the database as it was.
  pub call_on-closed :
      (is_terminal s.status || leb s.expires_at db.now) ≡ true
      → (c : Call) → call_on env s c db ≡ (err (refusal s), db)
  unfolding consent upload_document upload_selfie capture_document capture_selfie
      Verification.send_otp Verification.verify_otp transaction ◌>>=◌
  call_on-closed closed (give_consent true version ip agent) = rw (require_open-closed closed) refl
  call_on-closed closed (give_consent false version ip agent) = rw (require_open-closed closed) refl
  call_on-closed closed (capture (document ip type file)) = rw (require_open-closed closed) refl
  call_on-closed closed (capture (selfie ip file)) = rw (require_open-closed closed) refl
  call_on-closed closed (capture (otp_send channel destination)) =
      rw (require_open-closed closed) refl
  call_on-closed closed (capture (otp_verify code)) = rw (require_open-closed closed) refl

  require_open-open :
      is_terminal s.status ≡ false
      → leb s.expires_at db.now ≡ false
      → require_open s db ≡ (ok tt, db)
  unfolding require_open raising_as ensure_active utcnow ◌>>=◌
  require_open-open running fresh = rw (running, fresh) refl

  demand_consent-missing :
      {policy : FlowPolicy}
      → policy_of s ≡ ok policy
      → policy.requires_consent ≡ true
      → consent_given s.consent ≡ false
      → demand_consent s db ≡ (err (http 409 "CONSENT_REQUIRED"), db)
  unfolding demand_consent raising_as Session.require_consent lift ◌>>=◌
  demand_consent-missing known gated missing = rw (known, gated, missing) refl

  -- On an open session of a flow that requires consent, no document, selfie or code is captured before consent is
  -- given: the call is refused with 409 and the database is as it was.
  pub capture_on-consent :
      {policy : FlowPolicy}
      → is_terminal s.status ≡ false
      → leb s.expires_at db.now ≡ false
      → policy_of s ≡ ok policy
      → policy.requires_consent ≡ true
      → consent_given s.consent ≡ false
      → (c : Capture) → capture_on env s c db ≡ (err (http 409 "CONSENT_REQUIRED"), db)
  unfolding upload_document upload_selfie capture_document capture_selfie Verification.send_otp
      Verification.verify_otp transaction ◌>>=◌
  capture_on-consent running fresh known gated missing (document ip type file) =
      rw (require_open-open running fresh, demand_consent-missing known gated missing) refl
  capture_on-consent running fresh known gated missing (selfie ip file) =
      rw (require_open-open running fresh, demand_consent-missing known gated missing) refl
  capture_on-consent running fresh known gated missing (otp_send channel destination) =
      rw (require_open-open running fresh, demand_consent-missing known gated missing) refl
  capture_on-consent running fresh known gated missing (otp_verify code) =
      rw (require_open-open running fresh, demand_consent-missing known gated missing) refl
