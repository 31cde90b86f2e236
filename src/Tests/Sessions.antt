-- ===== src/Tests/Sessions.antt =====
-- A session's creation and its public view at concrete inputs.
use ekyc.Prelude.{◌≡◌, refl, ◌⊎◌, true, none, some, [], ◌∷◌, All, arith}
use ekyc.Json.{end}
use ekyc.Enums.{SessionStatus}
use ekyc.Models.{KycSession}
use ekyc.Exec.{ok}
use ekyc.Otp.Text.{code_text}
use ekyc.Policy.{citizen, get_policy}
use ekyc.Orchestrator
use ekyc.Orchestrator.{RegulatoryProfile}
use ekyc.Store.{find_session}
use ekyc.Kyc.Session.{create_session, authenticate_session}
use ekyc.Kyc.Opened.{opened, create_session-opened}
use ekyc.Kyc.Public.{public_result, identity_fields}
use ekyc.Kyc.Minimal.{IsShown, public_result-IsShown}
use ekyc.Tests.Fixtures.{env, tenant, empty_db, verified_session}

abbrev ivorian : RegulatoryProfile
ivorian = record {
  jurisdiction = "CI";
  vault_profile = "ci-vault";
  retention_days = 1825;
  tsa_policy = "internal";
  signature_level = "platform";
  source = "request";
}

known : get_policy "CITIZEN" ≡ ok citizen
unfolding get_policy
known = refl

routed : Orchestrator.resolve env tenant (some "ci") ≡ ok ivorian
unfolding Orchestrator.resolve
routed = refl

abbrev created : KycSession
created = opened env tenant "CITIZEN" none end (some "ci") none empty_db known refl routed

create_session-opened_example :
    let (r, db') = create_session env tenant "CITIZEN" none end (some "ci") none empty_db in
    (r ≡ ok (created, "0000"))
    × (find_session "0001" db'.sessions ≡ some created)
    × (authenticate_session env created "0000" db' ≡ (ok tt, db'))
    × ((created.tenant_id ≡ "t1")
        × (created.jurisdiction ≡ "CI")
        × (created.vault_profile ≡ "ci-vault")
        × (created.retention_days ≡ 1825)
        × (created.tsa_policy ≡ "internal")
        × (created.signature_level ≡ "platform")
        × (created.expires_at ≡ 1800))
unfolding code_text
create_session-opened_example =
    create_session-opened env tenant "CITIZEN" none end (some "ci") none empty_db known refl routed
      refl (omega arith)

public_result-IsShown_example :
    (true ≡ true)
    × ((SessionStatus.verified ≡ SessionStatus.verified)
        ⊎ (SessionStatus.verified ≡ SessionStatus.review))
    × All (IsShown verified_session.identity identity_fields) (("first_name", "Awa") ∷ [])
unfolding public_result
public_result-IsShown_example = public_result-IsShown verified_session true refl
