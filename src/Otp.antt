-- ===== src/Otp.antt =====
-- app/engines/otp.py: one-time codes. The gateway is `otp_delivers` of `ekyc.Env`.
pub mod Text
pub mod Digits
pub mod Attempts
pub mod Verification
use ekyc.Prelude.{
  ℕ, suc, ◌+◌, ◌-◌, ◌^◌, String, concat, Bool, true, false, not, ◌&&◌, Option, none, some, List, [],
  ◌∷◌, ◌++◌, map, ltb, leb, ◌==◌, if◌then◌else◌, str_eq,
}
use ekyc.Json.{dict, str, int}
use ekyc.Enums.{CheckStatus, Step, AuditEventType, OtpChannel, otp_channel_str}
use ekyc.Models.{KycSession, OtpChallenge, StepInternal, no_details}
use ekyc.Env.{Env}
use ekyc.Exec.{
  Db, Exn, otp_error, otp_rate_limited, otp_delivery_error, Exec, pure, raise, gets, raise_if,
  or_raise, when, draw, utcnow, ◌>>=◌, ◌>>◌,
}
use ekyc.Audit.{NewEvent, system_event, record_event, sha256_text}
use ekyc.Store.{load_session, modify_challenges}
use ekyc.Kyc.Session.{hash_secret}
use ekyc.Kyc.Decide.{set_check}
use ekyc.RateLimit.{hit, acquire_once}
use ekyc.Otp.Text.{mask_destination, code_text}

module _ (env : Env) where
  -- `_generate_code`
  unfoldable pub generate_code : Exec String
  generate_code = do
    n ← draw
    pure (code_text env.settings.otp_length (env.randbelow n (10 ^ env.settings.otp_length)))

  -- `_enforce_send_limits`
  unfoldable pub enforce_send_limits : String → String → Exec (Unit {0})
  enforce_send_limits sid destination = do
    acquired ← acquire_once env (concat "otp:cooldown:" sid) env.settings.otp_send_cooldown_seconds
    raise_if (not acquired) otp_rate_limited
    by_session ← hit env (concat "otp:send:sess:" sid) env.settings.otp_send_window_seconds
    raise_if (ltb env.settings.otp_max_sends_per_session by_session) otp_rate_limited
    by_destination ←
        hit env (concat "otp:send:dest:" (sha256_text env destination))
          env.settings.otp_send_window_seconds
    raise_if (ltb env.settings.otp_max_sends_per_destination by_destination) otp_rate_limited

-- A code of the session that is neither verified nor expired.
abbrev pub is_pending : String → ℕ → OtpChallenge → Bool
is_pending sid now c =
    str_eq c.session_id sid
    && (elim c.verified_at [ none ↦ true | some _ ↦ false ] && ltb now c.expires_at)

-- The loop of `_invalidate_pending`.
abbrev pub expire_pending : String → ℕ → List OtpChallenge → List OtpChallenge
expire_pending sid now [] = []
expire_pending sid now (c ∷ cs) =
    (if is_pending sid now c then record c { expires_at = now } else c) ∷ expire_pending sid now cs

unfoldable pub invalidate_pending : String → Exec (Unit {0})
invalidate_pending sid = do now ← utcnow; modify_challenges (expire_pending sid now)

-- `_latest_challenge`: the last one created; of two created at one instant the one added last.
abbrev pub later_of : OtpChallenge → Option OtpChallenge → OtpChallenge
later_of c none = c
later_of c (some d) = if ltb d.created_at c.created_at then c else d

abbrev pub latest_of : String → List OtpChallenge → Option OtpChallenge
latest_of sid [] = none
latest_of sid (c ∷ cs) =
    let rest = latest_of sid cs in if str_eq c.session_id sid then some (later_of c rest) else rest

-- `challenge.… = …; db.flush()`
abbrev pub save_challenge : OtpChallenge → List OtpChallenge → List OtpChallenge
save_challenge c [] = []
save_challenge c (d ∷ ds) = (if d.id == c.id then c else d) ∷ save_challenge c ds

module _ (env : Env) where
  abbrev pub new_challenge : KycSession → String → String → String → ℕ → ℕ → OtpChallenge
  new_challenge s channel destination code id now = record {
    id = id;
    session_id = s.id;
    tenant_id = s.tenant_id;
    channel = channel;
    destination_masked = mask_destination destination;
    destination_hash = sha256_text env destination;
    code_hash = hash_secret env code;
    attempts = 0;
    expires_at = now + env.settings.otp_ttl_seconds;
    verified_at = none;
    created_at = now;
  }

  unfoldable pub send_otp : String → OtpChannel → String → Exec OtpChallenge
  send_otp sid channel destination = do
    s ← load_session sid
    enforce_send_limits env sid destination
    code ← generate_code env
    raise_if (not (env.otp_delivers (otp_channel_str channel) destination code)) otp_delivery_error
    invalidate_pending sid
    id ← draw
    now ← utcnow
    let c = new_challenge s (otp_channel_str channel) destination code id now
    modify_challenges (λ cs. cs ++ c ∷ [])
    record_event env (
        system_event s.tenant_id s.id AuditEventType.otp_sent (
          dict (
            ("channel", str (otp_channel_str channel))
            ∷ ("destination", str c.destination_masked)
            ∷ [])))
    pure c

abbrev pub max_attempts_details : StepInternal
max_attempts_details = record no_details { reason = some "MAX_ATTEMPTS" }

abbrev pub attempts_details : ℕ → StepInternal
attempts_details n = record no_details { attempts = some n }

module _ (env : Env) where
  -- A wrong code, with the attempt counted.
  unfoldable pub reject_code : KycSession → OtpChallenge → Exec Bool
  reject_code s c = do
    record_event env (
        system_event s.tenant_id s.id AuditEventType.otp_failed
          (dict (("attempts", int c.attempts) ∷ [])))
    when (leb env.settings.otp_max_attempts c.attempts)
        (set_check s.id Step.otp CheckStatus.failed (some max_attempts_details))
    pure false

  abbrev pub verified_event : KycSession → OtpChallenge → NewEvent
  verified_event s c =
      system_event s.tenant_id s.id AuditEventType.otp_verified
        (dict (("channel", str c.channel) ∷ ("destination", str c.destination_masked) ∷ []))

  -- The right code, with the attempt counted.
  unfoldable pub accept_code : KycSession → OtpChallenge → Exec Bool
  accept_code s c = do
    now ← utcnow
    modify_challenges (save_challenge (record c { verified_at = some now }))
    record_event env (verified_event s c)
    set_check s.id Step.otp CheckStatus.passed (some (attempts_details c.attempts))
    pure true

  unfoldable pub lock_out : KycSession → Exec Bool
  lock_out s = do
    set_check s.id Step.otp CheckStatus.failed (some max_attempts_details)
    raise (otp_error "Too many attempts")

  -- `challenge.attempts += 1` and the comparison.
  unfoldable pub guess : KycSession → OtpChallenge → String → Exec Bool
  guess s c code = do
    let counted = record c { attempts = c.attempts + 1 }
    modify_challenges (save_challenge counted)
    if str_eq (hash_secret env code) c.code_hash
        then accept_code s counted
        else reject_code s counted

  -- The tests on the latest challenge, in the order of the code.
  abbrev pub check_challenge : KycSession → OtpChallenge → ℕ → String → Option ℕ → Exec Bool
  check_challenge s c now code (some at) = pure true
  check_challenge s c now code none =
      if leb c.expires_at now
      then raise (otp_error "OTP expired")
      else if leb env.settings.otp_max_attempts c.attempts
      then lock_out s
      else guess s c code

  unfoldable pub verify_otp : String → String → Exec Bool
  verify_otp sid code = do
    s ← load_session sid
    latest ← gets (λ db. latest_of sid db.challenges)
    c ← or_raise latest (otp_error "No OTP challenge for this session")
    now ← utcnow
    check_challenge s c now code c.verified_at
