-- ===== src/Frame/OtpOps.antt =====
-- The operations of app/engines/otp.py and ratelimit.py under the interface of `ekyc.Frame`.
use ekyc.Prelude.{ℕ, String, Bool, Option, none, some}
use ekyc.Enums.{OtpChannel}
use ekyc.Models.{KycSession, OtpChallenge}
use ekyc.Env.{Env}
use ekyc.Exec.{Db}
use ekyc.Exec.Keeps.{Keeps, Keeps-bind, Keeps-gets, Keeps-if, Keeps-pure, keeps_rules}
use ekyc.RateLimit.{
  redis_down, mark_redis_down, mem_hit, hit_reply, hit, mem_acquire, acquire_reply, acquire_once,
}
use ekyc.Otp.{
  generate_code, enforce_send_limits, invalidate_pending, send_otp, reject_code, accept_code,
  lock_out, guess, check_challenge, verify_otp,
}
use ekyc.Frame.{OtpFrame}
use ekyc.Frame.Operations.{utcnow-Keeps, load_session-Keeps, or_raise-Keeps}

module _ (env : Env) {P : Db → Type 0} (frame : OtpFrame env P) where
  open frame use {keeps_limiter, keeps_draw}

  redis_down-Keeps : Keeps P redis_down
  unfolding redis_down
  redis_down-Keeps = Keeps-bind _ _ (utcnow-Keeps) λ now. Keeps-gets _

  mark_redis_down-Keeps : Keeps P mark_redis_down
  unfolding mark_redis_down
  mark_redis_down-Keeps = Keeps-bind _ _ (utcnow-Keeps) λ now. keeps_limiter _

  mem_hit-Keeps : (key : String) (window : ℕ) → Keeps P (mem_hit key window)
  unfolding mem_hit
  mem_hit-Keeps key window = Keeps-bind _ _ (utcnow-Keeps) λ now.
      Keeps-bind _ _ (Keeps-gets _) λ count. Keeps-bind _ _ (keeps_limiter _) λ _. Keeps-pure _

  hit_reply-Keeps :
      (key : String) (window : ℕ) (reply : Option ℕ) → Keeps P (hit_reply env key window reply)
  hit_reply-Keeps key window (some n) = search keeps_rules
  hit_reply-Keeps key window none = search (keeps_rules, mark_redis_down-Keeps, mem_hit-Keeps)

  pub hit-Keeps : (key : String) (window : ℕ) → Keeps P (hit env key window)
  unfolding hit
  hit-Keeps key window = Keeps-bind _ _ redis_down-Keeps λ down.
      Keeps-if down _ _ (mem_hit-Keeps key window)
        (Keeps-bind _ _ keeps_draw λ r. hit_reply-Keeps key window _)

  mem_acquire-Keeps : (key : String) (ttl : ℕ) → Keeps P (mem_acquire key ttl)
  unfolding mem_acquire
  mem_acquire-Keeps key ttl = Keeps-bind _ _ (utcnow-Keeps) λ now.
      Keeps-bind _ _ (Keeps-gets _)
        λ entry. Keeps-if _ _ _ (Keeps-pure _) (Keeps-bind _ _ (keeps_limiter _) λ _. Keeps-pure _)

  acquire_reply-Keeps :
      (key : String) (ttl : ℕ) (reply : Option Bool) → Keeps P (acquire_reply env key ttl reply)
  acquire_reply-Keeps key ttl (some b) = search keeps_rules
  acquire_reply-Keeps key ttl none = search (keeps_rules, mark_redis_down-Keeps, mem_acquire-Keeps)

  pub acquire_once-Keeps : (key : String) (ttl : ℕ) → Keeps P (acquire_once env key ttl)
  unfolding acquire_once
  acquire_once-Keeps key ttl = Keeps-if _ _ _ (Keeps-pure _) (
      Keeps-bind _ _ redis_down-Keeps λ down.
        Keeps-if down _ _ (mem_acquire-Keeps key ttl)
          (Keeps-bind _ _ keeps_draw λ r. acquire_reply-Keeps key ttl _))

  pub generate_code-Keeps : Keeps P (generate_code env)
  unfolding generate_code
  generate_code-Keeps = Keeps-bind _ _ keeps_draw λ n. Keeps-pure _

  pub enforce_send_limits-Keeps :
      (sid destination : String) → Keeps P (enforce_send_limits env sid destination)
  unfolding enforce_send_limits
  enforce_send_limits-Keeps sid destination =
      search (keeps_rules, acquire_once-Keeps, hit-Keeps) depth 12

module _ (env : Env) {P : Db → Type 0} (frame : OtpFrame env P) where
  open frame use {keeps_event, keeps_draw, keeps_challenges, keeps_check}

  invalidate_pending-Keeps : (sid : String) → Keeps P (invalidate_pending sid)
  unfolding invalidate_pending
  invalidate_pending-Keeps sid = Keeps-bind _ _ (utcnow-Keeps) λ now. keeps_challenges _

  pub send_otp-Keeps :
      (sid : String) (channel : OtpChannel) (destination : String)
      → Keeps P (send_otp env sid channel destination)
  unfolding send_otp
  send_otp-Keeps sid channel destination = Keeps-bind _ _ (load_session-Keeps sid) λ s.
      Keeps-bind _ _ (enforce_send_limits-Keeps env frame sid destination) λ _.
        Keeps-bind _ _ (generate_code-Keeps env frame) λ code.
          Keeps-bind _ _ (search keeps_rules) λ _.
            Keeps-bind _ _ (invalidate_pending-Keeps sid) λ _. Keeps-bind _ _ keeps_draw λ id.
              Keeps-bind _ _ (utcnow-Keeps)
                λ now. Keeps-bind _ _ (keeps_challenges _) λ _. search (keeps_rules, keeps_event)

  reject_code-Keeps : (s : KycSession) (c : OtpChallenge) → Keeps P (reject_code env s c)
  unfolding reject_code
  reject_code-Keeps s c = search (keeps_rules, keeps_event, keeps_check) depth 9

  accept_code-Keeps : (s : KycSession) (c : OtpChallenge) → Keeps P (accept_code env s c)
  unfolding accept_code
  accept_code-Keeps s c =
      Keeps-bind _ _ (utcnow-Keeps) λ now.
        Keeps-bind _ _ (keeps_challenges _) λ _. search (keeps_rules, keeps_event, keeps_check)

  lock_out-Keeps : (s : KycSession) → Keeps P (lock_out env s)
  unfolding lock_out
  lock_out-Keeps s = search (keeps_rules, keeps_check)

  guess-Keeps : (s : KycSession) (c : OtpChallenge) (code : String) → Keeps P (guess env s c code)
  unfolding guess
  guess-Keeps s c code =
      Keeps-bind _ _ (keeps_challenges _)
        λ _. search (keeps_rules, accept_code-Keeps, reject_code-Keeps)

  check_challenge-Keeps :
      (s : KycSession) (c : OtpChallenge) (now : ℕ) (code : String) (verified : Option ℕ)
      → Keeps P (check_challenge env s c now code verified)
  check_challenge-Keeps s c now code (some at) = search keeps_rules
  check_challenge-Keeps s c now code none = search (keeps_rules, lock_out-Keeps, guess-Keeps)

  pub verify_otp-Keeps : (sid code : String) → Keeps P (verify_otp env sid code)
  unfolding verify_otp
  verify_otp-Keeps sid code = Keeps-bind _ _ (load_session-Keeps sid) λ s.
      Keeps-bind _ _ (Keeps-gets _) λ latest.
        Keeps-bind _ _ (or_raise-Keeps latest _)
          λ c. Keeps-bind _ _ (utcnow-Keeps) λ now. check_challenge-Keeps s c now code _
