-- ===== src/Policy.antt =====
-- app/engines/policy.py: the flows and the steps each one requires.
use ekyc.Prelude.{String, Bool, true, false, List, [], ◌∷◌, any, if◌then◌else◌, str_eq}
use ekyc.Enums.{Step, DocumentType, step_eq, document_type_eq}
use ekyc.Exec.{Result, ok, err, unknown_flow}

pub record FlowPolicy : Type 0 where
  pub name : String
  pub label : String
  pub accepted_documents : List DocumentType
  pub steps : List Step
  pub review_on_failure : List Step
  pub requires_signature : Bool
  pub requires_consent : Bool

-- `step in steps`
abbrev pub contains_step : List Step → Step → Bool
contains_step steps s = any (λ t. step_eq s t) steps

abbrev pub requires : FlowPolicy → Step → Bool
requires p s = contains_step p.steps s

abbrev pub accepts : FlowPolicy → DocumentType → Bool
accepts p d = any (λ e. document_type_eq d e) p.accepted_documents

abbrev pub travel_insurance : FlowPolicy
travel_insurance = record {
  name = "TRAVEL_INSURANCE";
  label = "Souscription assurance voyage";
  accepted_documents = DocumentType.passport ∷ [];
  steps =
      Step.document ∷ Step.ocr ∷ Step.document_verification ∷ Step.selfie ∷ Step.liveness
      ∷ Step.face_match ∷ Step.otp ∷ [];
  review_on_failure = Step.document_verification ∷ Step.face_match ∷ [];
  requires_signature = true;
  requires_consent = true;
}

abbrev pub bank_account : FlowPolicy
bank_account = record {
  name = "BANK_ACCOUNT";
  label = "Ouverture de compte bancaire";
  accepted_documents = DocumentType.national_id ∷ DocumentType.passport ∷ [];
  steps =
      Step.document ∷ Step.ocr ∷ Step.document_verification ∷ Step.selfie ∷ Step.liveness
      ∷ Step.face_match ∷ Step.otp ∷ [];
  review_on_failure = Step.face_match ∷ [];
  requires_signature = true;
  requires_consent = true;
}

abbrev pub citizen : FlowPolicy
citizen = record {
  name = "CITIZEN";
  label = "Service administratif citoyen";
  accepted_documents = DocumentType.national_id ∷ DocumentType.residence_permit ∷ [];
  steps = Step.document ∷ Step.ocr ∷ Step.document_verification ∷ Step.otp ∷ [];
  review_on_failure = Step.document_verification ∷ [];
  requires_signature = false;
  requires_consent = true;
}

-- `FLOWS[flow]`, with `UnknownFlowError` for a missing key.
unfoldable pub get_policy : String → Result FlowPolicy
get_policy flow =
    if str_eq flow "TRAVEL_INSURANCE"
    then ok travel_insurance
    else if str_eq flow "BANK_ACCOUNT"
    then ok bank_account
    else if str_eq flow "CITIZEN"
    then ok citizen
    else err unknown_flow
