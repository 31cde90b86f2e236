-- ===== src/Otp/Verification.antt =====
-- app/engines/otp.py: the branches of `verify_otp`.
use ekyc.Prelude.{
  ◌+◌, ◌≤◌, ◌<◌, String, ◌≡◌, ◌≢◌, refl, sym, ap, ◌∙◌, ◌++◌, true, false, none, some, [], ◌∷◌,
  arith, leb, str_eq, eq_iff, Bool-cases, inl, inr,
}
use mathlib.Core.Path.{subst}
use ekyc.Models.{KycSession, OtpChallenge}
use ekyc.Enums.{Step, CheckStatus}
use ekyc.Env.{Env}
use ekyc.Exec.{Db, Exn, ok, err, otp_error, Exec, pure, raise, utcnow, ◌>>=◌, ◌>>◌}
use ekyc.Audit.{record_event, next_event}
use ekyc.Store.{find_session, find_session-id, load_session, modify_challenges}
use ekyc.Kyc.Session.{hash_secret}
use ekyc.Kyc.Decide.{set_check}
use ekyc.Kyc.Checks.{set_check-found, set_check-checks}
use ekyc.Otp.{
  latest_of, check_challenge, guess, accept_code, reject_code, lock_out, verify_otp,
  attempts_details, save_challenge, verified_event,
}

then_pure :
    {A B : Type 0} (m : Exec A) (b : B) (db : Db) {b' : B} → ((m >> pure b) db).0 ≡ ok b' → b ≡ b'
unfolding ◌>>=◌
then_pure m b db h = ground arith

then_raise : {A B : Type 0} (m : Exec A) (e : Exn) (db : Db) {b : B} → ((m >> raise e) db).0 ≢ ok b
unfolding ◌>>=◌
then_raise m e db h = ground arith

module _ (env : Env) (s : KycSession) (c : OtpChallenge) (code : String) (db : Db) where
  reject_code-ne-true : (d : OtpChallenge) (db' : Db) → (reject_code env s d db').0 ≢ ok true
  unfolding reject_code ◌>>=◌ record_event utcnow
  reject_code-ne-true d db' h = ground arith

  lock_out-ne-ok : (lock_out env s db).0 ≢ ok true
  unfolding lock_out
  lock_out-ne-ok h = then_raise _ _ db h

  guess-accepts : (guess env s c code db).0 ≡ ok true → hash_secret env code ≡ c.code_hash
  unfolding guess ◌>>=◌ modify_challenges
  guess-accepts h = elim (Bool-cases (str_eq (hash_secret env code) c.code_hash)) [
    | inl same ↦ (eq_iff _ _).0 same
    | inr other ↦ absurd (reject_code-ne-true _ _ (rw other at h))
  ]

  check_challenge-accepts :
      (check_challenge env s c db.now code none db).0 ≡ ok true
      → (hash_secret env code ≡ c.code_hash)
        × (db.now < c.expires_at)
        × (c.attempts < env.settings.otp_max_attempts)
  unfolding raise
  check_challenge-accepts h = elim (Bool-cases (leb c.expires_at db.now)) [
    | inl late ↦ cc (rw late at h)
    | inr in_time ↦ elim (Bool-cases (leb env.settings.otp_max_attempts c.attempts)) [
      | inl used_up ↦ absurd (lock_out-ne-ok (rw (in_time, used_up) at h))
      | inr left ↦ (guess-accepts (rw (in_time, left) at h), ground arith, ground arith)
    ]
  ]

-- A step that returned, then a value.
returned_then :
    {B : Type 0} (m : Exec (Unit {0})) (b : B) (db : Db)
    → (m db).0 ≡ ok tt
    → ((m >> pure b) db).0 ≡ ok b × (((m >> pure b) db).1 ≡ (m db).1)
unfolding ◌>>=◌
returned_then m b db h = rw h (refl, refl)

accept_code-passes :
    (env : Env) (s : KycSession) (c : OtpChallenge) (db : Db)
    → find_session s.id db.sessions ≡ some s
    → let (r, db') = accept_code env s c db in
      (r ≡ ok true)
      × ((t : KycSession) × (find_session s.id db'.sessions ≡ some t)
          × (t.checks Step.otp ≡ some CheckStatus.passed))
unfolding accept_code ◌>>=◌ utcnow modify_challenges record_event
accept_code-passes env s c db found =
    let details = some (attempts_details c.attempts) in
    let db' : Db = record db {
      challenges = save_challenge (record c { verified_at = some db.now }) db.challenges;
      events = db.events ++ next_event env (verified_event env s c) db ∷ [];
    } in
    let (t, kept, checks, _) =
      set_check-checks s.id Step.otp CheckStatus.passed details db' found in
    let done =
      returned_then (set_check s.id Step.otp CheckStatus.passed details) true db'
        (ap (λ p. p.0) (set_check-found s.id Step.otp CheckStatus.passed details db' found)) in
    (done.0, (t, rw done.1 kept, checks Step.otp))

guess-passes :
    (env : Env) (s : KycSession) (c : OtpChallenge) (code : String) (db : Db)
    → find_session s.id db.sessions ≡ some s
    → hash_secret env code ≡ c.code_hash
    → let (r, db') = guess env s c code db in
      (r ≡ ok true)
      × ((t : KycSession) × (find_session s.id db'.sessions ≡ some t)
          × (t.checks Step.otp ≡ some CheckStatus.passed))
unfolding guess ◌>>=◌ modify_challenges
guess-passes env s c code db found same =
    let right : str_eq (hash_secret env code) c.code_hash ≡ true = (eq_iff _ _).1 same in
    rw right (
      accept_code-passes env s (record c { attempts = c.attempts + 1 })
        (record db {
          challenges = save_challenge (record c { attempts = c.attempts + 1 }) db.challenges;
        })
        found)

module _ (env : Env) (sid code : String) (db : Db) {s : KycSession} {c : OtpChallenge}
    (found : find_session sid db.sessions ≡ some s)
    (latest : latest_of sid db.challenges ≡ some c) where
  verify_otp-found :
      verify_otp env sid code db ≡ check_challenge env s c db.now code c.verified_at db
  unfolding verify_otp load_session ◌>>=◌ utcnow
  verify_otp-found = rw (found, latest) refl

  pub verify_otp-fresh :
      c.verified_at ≡ none
      → verify_otp env sid code db ≡ check_challenge env s c db.now code none db
  verify_otp-fresh fresh =
      verify_otp-found ∙ ap (λ v. check_challenge env s c db.now code v db) fresh

  -- Where the latest challenge of a stored session is unverified and its expiry is reached, no
  -- code is accepted, and nothing is written.
  pub verify_otp-expired :
      c.verified_at ≡ none
      → c.expires_at ≤ db.now
      → verify_otp env sid code db ≡ (err (otp_error "OTP expired"), db)
  unfolding raise
  verify_otp-expired fresh late =
      let past : leb c.expires_at db.now ≡ true = ground arith in
      rw (verify_otp-fresh fresh, past) refl

  -- Where the latest challenge of a stored session is unverified, a code is accepted only if its
  -- keyed hash is the one stored, the expiry is not reached and an attempt is left.
  pub verify_otp-accepts :
      c.verified_at ≡ none
      → (verify_otp env sid code db).0 ≡ ok true
      → (hash_secret env code ≡ c.code_hash)
        × (db.now < c.expires_at)
        × (c.attempts < env.settings.otp_max_attempts)
  verify_otp-accepts fresh accepted =
      check_challenge-accepts env s c code db (rw (verify_otp-fresh fresh) at accepted)

  -- Where the latest challenge of a stored session is unverified, the right code, in time and with
  -- an attempt left, is accepted, and the stored OTP check of the session has passed.
  pub verify_otp-right :
      c.verified_at ≡ none
      → hash_secret env code ≡ c.code_hash
      → db.now < c.expires_at
      → c.attempts < env.settings.otp_max_attempts
      → let (r, db') = verify_otp env sid code db in
        (r ≡ ok true)
        × ((t : KycSession) × (find_session sid db'.sessions ≡ some t)
            × (t.checks Step.otp ≡ some CheckStatus.passed))
  verify_otp-right fresh same in_time left =
      let early : leb c.expires_at db.now ≡ false = ground arith in
      let room : leb env.settings.otp_max_attempts c.attempts ≡ false = ground arith in
      let own = find_session-id sid s db.sessions found in
      let found' : find_session s.id db.sessions ≡ some s =
        subst (λ i. find_session i db.sessions ≡ some s) (sym own) found in
      rw (verify_otp-fresh fresh, early, room)
        (subst
          (λ i.
            ((guess env s c code db).0 ≡ ok true)
            × ((t : KycSession) × (find_session i (guess env s c code db).1.sessions ≡ some t)
                × (t.checks Step.otp ≡ some CheckStatus.passed)))
          own (guess-passes env s c code db found' same))
