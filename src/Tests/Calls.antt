-- ===== src/Tests/Calls.antt =====
-- The calls of the API at concrete inputs.
use ekyc.Prelude.{arith, concat, ◌≡◌, refl, some, [], ◌∷◌}
use ekyc.Models.{KycSession, Tenant}
use ekyc.Env.{Env}
use ekyc.Exec.{pure, Db, ok, err, http}
use ekyc.Policy.{get_policy}
use ekyc.Kyc.Session.{policy_of, hash_secret}
use ekyc.Api.{bearer, get_current_tenant}
use ekyc.Api.Guards.{otp_verify, capture, call_on, capture_on, call_on-closed, capture_on-consent}
use ekyc.Api.Auth.{issue_token}
use ekyc.Api.Auth.Tokens.{TokensDecode, get_current_tenant-issue_token}
use ekyc.Tests.Fixtures.{env, tenant, empty_db, open_session, verified_session, db_at}

call_on-closed_example :
    call_on env verified_session (capture (otp_verify "1234")) (db_at 100 verified_session)
    ≡ (err (http 409 (concat "Session is already " "VERIFIED")), db_at 100 verified_session)
call_on-closed_example =
    call_on-closed env verified_session (db_at 100 verified_session) refl
      (capture (otp_verify "1234"))

-- A session of a flow that asks for consent.
abbrev silent_session : KycSession
silent_session = record open_session { flow = "TRAVEL_INSURANCE" }

capture_on-consent_example :
    capture_on env silent_session (otp_verify "1234") (db_at 100 silent_session)
    ≡ (err (http 409 "CONSENT_REQUIRED"), db_at 100 silent_session)
unfolding policy_of get_policy
capture_on-consent_example =
    capture_on-consent env silent_session (db_at 100 silent_session) refl refl refl refl refl
      (otp_verify "1234")

-- A token lasts an hour.
abbrev issuing : Env
issuing = record env { settings = record env.settings { access_token_ttl_seconds = 3600 } }

decodes : TokensDecode issuing
decodes secret sub scope typ iat exp now since fresh = refl

abbrev member : Tenant
member = record tenant { client_secret_hash = "jwtsk_1" }

abbrev member_db : Db
member_db = record empty_db { tenants = member ∷ [] }

hashed : member.client_secret_hash ≡ hash_secret issuing "sk_1"
unfolding hash_secret
hashed = refl

-- Half an hour later.
abbrev later_db : Db
later_db = record member_db { now = 1800 }

carried : bearer issuing (some "bearer t1") later_db ≡ (ok "t1", later_db)
unfolding bearer pure
carried = refl

get_current_tenant-issue_token_example :
    (issue_token issuing "c1" "sk_1" member_db ≡ (ok ("t1", 3600), member_db))
    × (get_current_tenant issuing (some "bearer t1") later_db ≡ (ok member, later_db))
get_current_tenant-issue_token_example =
    get_current_tenant-issue_token issuing decodes member "sk_1" member_db refl refl hashed
      "bearer t1" later_db carried (omega arith) (omega arith) refl
