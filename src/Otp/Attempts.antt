-- ===== src/Otp/Attempts.antt =====
-- app/engines/otp.py: challenges with no attempt left.
use ekyc.Prelude.{◌≤◌, ◌<◌, String, ◌≡◌, refl, sym, true, false, none, some, arith, leb}
use mathlib.Core.Path.{subst}
use ekyc.Models.{KycSession, OtpChallenge}
use ekyc.Enums.{Step, CheckStatus}
use ekyc.Env.{Env}
use ekyc.Exec.{Db, err, otp_error, ◌>>=◌}
use ekyc.Store.{find_session, find_session-id}
use ekyc.Kyc.Checks.{set_check-found, set_check-checks}
use ekyc.Otp.{latest_of, lock_out, max_attempts_details, verify_otp}
use ekyc.Otp.Verification.{verify_otp-fresh}

lock_out-fails :
    (env : Env) (s : KycSession) (db : Db)
    → find_session s.id db.sessions ≡ some s
    → let (r, db') = lock_out env s db in
      (r ≡ err (otp_error "Too many attempts"))
      × ((t : KycSession) × (find_session s.id db'.sessions ≡ some t)
          × (t.checks Step.otp ≡ some CheckStatus.failed))
unfolding lock_out ◌>>=◌
lock_out-fails env s db found =
    let written =
      set_check-found s.id Step.otp CheckStatus.failed (some max_attempts_details) db found in
    let (t, stored, checks, _) =
      set_check-checks s.id Step.otp CheckStatus.failed (some max_attempts_details) db found in
    let stored' = rw written at stored in rw written (refl, (t, stored', checks Step.otp))

module _ (env : Env) (sid code : String) (db : Db) {s : KycSession} {c : OtpChallenge}
    (found : find_session sid db.sessions ≡ some s)
    (latest : latest_of sid db.challenges ≡ some c) where
  -- Where the latest challenge of a stored session is unverified, not expired and has no attempt
  -- left, every code is refused, the right one too, and the session's OTP check is stored as
  -- failed.
  verify_otp-locked :
      c.verified_at ≡ none
      → db.now < c.expires_at
      → env.settings.otp_max_attempts ≤ c.attempts
      → let (r, db') = verify_otp env sid code db in
        (r ≡ err (otp_error "Too many attempts"))
        × ((t : KycSession) × (find_session sid db'.sessions ≡ some t)
            × (t.checks Step.otp ≡ some CheckStatus.failed))
  verify_otp-locked fresh in_time used_up =
      let early : leb c.expires_at db.now ≡ false = ground arith in
      let full : leb env.settings.otp_max_attempts c.attempts ≡ true = ground arith in
      let own = find_session-id sid s db.sessions found in
      let found' : find_session s.id db.sessions ≡ some s =
        subst (λ i. find_session i db.sessions ≡ some s) (sym own) found in
      rw (verify_otp-fresh env sid code db found latest fresh, early, full)
        (subst
          (λ i.
            ((lock_out env s db).0 ≡ err (otp_error "Too many attempts"))
            × ((t : KycSession) × (find_session i (lock_out env s db).1.sessions ≡ some t)
                × (t.checks Step.otp ≡ some CheckStatus.failed)))
          own (lock_out-fails env s db found'))
