-- ===== src/Tests/Codes.antt =====
-- One-time codes, the fallback counters and the boot validation at concrete inputs.
use ekyc.Prelude.{◌↔◌, false, ◌&&◌, str_eq, ◌<◌, ◌≡◌, refl, true, false, none, arith}
use ekyc.Env.{Settings}
use ekyc.Config.{
  weak_secret, is_dev_only, validate_production_settings, validate_production_settings_iff,
}
use ekyc.Exec.{ok, utcnow, ◌>>=◌}
use ekyc.Store.{modify_limiter}
use ekyc.Kyc.Session.{hash_secret}
use ekyc.RateLimit.{hit, acquire_once, redis_down, mem_hit, mem_acquire}
use ekyc.Otp.{verify_otp}
use ekyc.Otp.Verification.{verify_otp-accepts, verify_otp-right}
use ekyc.Tests.Fixtures.{settings, env, open_session, challenge, db_at}

accepted : (verify_otp env "s1" "1234" (db_at 150 open_session)).0 ≡ ok true
unfolding hash_secret
accepted =
    (verify_otp-right env "s1" "1234" (db_at 150 open_session) {c = challenge} refl refl refl refl
      (omega arith) (omega arith)).0

verify_otp-accepts_example : (hash_secret env "1234" ≡ challenge.code_hash) × (150 < 400) × (1 < 3)
verify_otp-accepts_example =
    verify_otp-accepts env "s1" "1234" (db_at 150 open_session) {c = challenge} refl refl refl
      accepted

first_hit : (hit env "k" 60 (db_at 100 open_session)).0 ≡ ok 1
unfolding hit redis_down mem_hit ◌>>=◌ utcnow modify_limiter
first_hit = refl

first_acquire : (acquire_once env "k" 60 (db_at 100 open_session)).0 ≡ ok true
unfolding acquire_once redis_down mem_acquire ◌>>=◌ utcnow modify_limiter
first_acquire = refl

abbrev production : Settings
production = record settings { environment = "production" }

validate_production_settings_iff_example : (validate_production_settings env production ≡ ok tt) ↔ (
    (weak_secret env "" ≡ none)
    × (weak_secret env "jwt" ≡ none)
    × (true ≡ false)
    × (is_dev_only "stub" ≡ false)
    × (is_dev_only "stub" ≡ false)
    × (is_dev_only "log" ≡ false)
    × (true && str_eq "kek" "" ≡ false))
validate_production_settings_iff_example = validate_production_settings_iff env production refl
