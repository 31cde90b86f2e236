-- ===== src/Kyc/Public.antt =====
-- app/services/kyc.py, `public_result`: what a tenant sees of a session.
use ekyc.Prelude.{
  ℕ, String, Bool, true, false, ◌&&◌, Option, none, some, List, [], ◌∷◌, if◌then◌else◌, str_eq,
  lookup,
}
use ekyc.Json.{Double}
use ekyc.Enums.{SessionStatus, CheckStatus, Step}
use ekyc.Models.{KycSession}

-- `public_result`: what a tenant sees.
pub record PublicResult : Type 0 where
  pub session_id : String
  pub customer_reference : Option String
  pub flow : String
  pub jurisdiction : String
  pub status : SessionStatus
  pub checks : Step → Option CheckStatus
  pub reasons : List String
  pub created_at : ℕ
  pub completed_at : Option ℕ
  pub identity : Option (List (String × String))
  pub risk_score : Option Double

abbrev pub identity_fields : List String
identity_fields =
    "first_name" ∷ "last_name" ∷ "date_of_birth" ∷ "nationality" ∷ "document_type" ∷ []

-- `{key: identity.get(key) for key in keys if identity.get(key)}`
abbrev pub project : List (String × String) → List String → List (String × String)
project identity [] = []
project identity (k ∷ ks) = elim (lookup k identity) [
  | none ↦ project identity ks
  | some v ↦ if str_eq v "" then project identity ks else (k, v) ∷ project identity ks
]

abbrev pub shows_identity : SessionStatus → Bool
shows_identity SessionStatus.verified = true
shows_identity SessionStatus.review = true
shows_identity _ = false

unfoldable pub public_result : KycSession → Bool → PublicResult
public_result s include_identity = record {
  session_id = s.id;
  customer_reference = s.customer_reference;
  flow = s.flow;
  jurisdiction = s.jurisdiction;
  status = s.status;
  checks = s.checks;
  reasons = s.reasons;
  created_at = s.created_at;
  completed_at = s.completed_at;
  identity =
      if include_identity && shows_identity s.status
      then some (project s.identity identity_fields)
      else none;
  risk_score = elim s.internal.risk [ none ↦ none | some r ↦ some r.score ];
}
