-- ===== src/Tests/Decisions.antt =====
-- Decisions, checks and corrections at concrete sessions.
use ekyc.Prelude.{◌≡◌, ◌↔◌, ◌⊎◌, refl, true, false, some, All}
use ekyc.Enums.{SessionStatus, CheckStatus, Step}
use ekyc.Models.{KycSession, no_internal}
use ekyc.Exec.{ok}
use ekyc.Policy.{citizen, get_policy}
use ekyc.Decision.{decide, compute_risk, decidable_steps}
use ekyc.Decision.Verdict.{decide-rejected, decide-verified_iff}
use ekyc.Store.{find_session}
use ekyc.Kyc.Decide.{evaluate}
use ekyc.Kyc.Evaluate.{evaluate-terminal}
use ekyc.Tests.Fixtures.{
  floats, settings, env, passed_checks, failed_checks, verified_session, db_at,
}

decide-verified_iff_example :
    ((decide floats settings citizen passed_checks no_internal).status ≡ SessionStatus.verified) ↔ (
      All
        (λ s.
          (passed_checks s ≡ some CheckStatus.passed)
          ⊎ (passed_checks s ≡ some CheckStatus.skipped))
        (decidable_steps citizen)
      × (floats.lt
            (compute_risk floats citizen passed_checks no_internal).0
            settings.risk_review_threshold
          ≡ false)
      × (floats.lt
            (compute_risk floats citizen passed_checks no_internal).0
            settings.risk_accept_threshold
          ≡ false))
decide-verified_iff_example = decide-verified_iff floats settings citizen passed_checks no_internal

decide-rejected_example :
    ((decide floats settings citizen failed_checks no_internal).status ≡ SessionStatus.rejected)
    × ((decide floats settings citizen failed_checks no_internal).completed ≡ true)
unfolding decidable_steps
decide-rejected_example =
    decide-rejected floats settings citizen failed_checks no_internal Step.otp refl refl refl

evaluate-terminal_example :
    let (r, db') = evaluate env "s1" (db_at 100 verified_session) in
    (t : KycSession) × (find_session "s1" db'.sessions ≡ some t)
    × (t.status ≡ SessionStatus.verified)
    × (r ≡ ok SessionStatus.verified)
unfolding get_policy
evaluate-terminal_example =
    evaluate-terminal env "s1" (db_at 100 verified_session) {policy = citizen} refl refl refl
