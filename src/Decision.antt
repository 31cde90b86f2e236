-- ===== src/Decision.antt =====
-- app/engines/decision.py: from the results of the steps to a status, reasons and a score.
pub mod Verdict
use ekyc.Prelude.{
  String, ◌≡◌, Bool, true, false, not, ◌&&◌, ◌||◌, Option, none, some, List, [], ◌∷◌, ◌++◌, map,
  select, non_empty, if◌then◌else◌, or_else, concat,
}
use ekyc.Json.{Double}
use ekyc.Enums.{
  SessionStatus, CheckStatus, Step, check_status_eq, check_status_str, step_str, step_eq,
}
use ekyc.Models.{Internal, StepInternal, no_details}
use ekyc.Env.{FloatOps, Settings}
use ekyc.Policy.{FlowPolicy, contains_step}

abbrev pub Checks : Type 0
Checks = Step → Option CheckStatus

pub record StepContribution : Type 0 where
  pub step : String
  pub status : String
  pub weight : Double
  pub confidence : Double
  pub score : Double

pub record Decision : Type 0 where
  pub status : SessionStatus
  pub reasons : List String
  pub completed : Bool
  pub score : Double
  pub risk_level : String
  pub contributions : List StepContribution

-- `_HIDDEN_STEPS` and `_HARD_REJECT_STEPS`
abbrev pub is_hidden : Step → Bool
is_hidden Step.ocr = true
is_hidden Step.selfie = true
is_hidden Step.document = true
is_hidden _ = false

abbrev pub is_hard_reject : Step → Bool
is_hard_reject Step.liveness = true
is_hard_reject _ = false

unfoldable pub decidable_steps : FlowPolicy → List Step
decidable_steps p = select (λ s. not (is_hidden s)) p.steps

-- `checks.get(step, PENDING)`
abbrev pub status_of : Checks → Step → CheckStatus
status_of checks s = or_else (checks s) CheckStatus.pending

-- `checks.get(step) == status`: a missing key equals no member.
abbrev pub has_status : Checks → CheckStatus → Step → Bool
has_status checks c s = elim (checks s) [ none ↦ false | some d ↦ check_status_eq d c ]

module _ (fl : FloatOps) where
  -- `_STEP_WEIGHTS.get(step, 10.0)`
  pub step_weight : Step → Double
  step_weight Step.document_verification = fl.decimal 30 0
  step_weight Step.liveness = fl.decimal 25 0
  step_weight Step.face_match = fl.decimal 25 0
  step_weight Step.otp = fl.decimal 15 0
  step_weight Step.signature = fl.decimal 5 0
  step_weight _ = fl.decimal 10 0

  -- `0.5 if status == REVIEW else 1.0`
  default_confidence : CheckStatus → Double
  default_confidence CheckStatus.review = fl.decimal 5 1
  default_confidence _ = fl.decimal 1 0

  -- The confidence of a step that passed or is under review.
  decided_confidence : Step → CheckStatus → StepInternal → Double
  unfolding default_confidence
  decided_confidence Step.document_verification c d =
      or_else d.authenticity_confidence (or_else d.ocr_confidence (default_confidence c))
  decided_confidence Step.liveness c d = or_else d.score (default_confidence c)
  decided_confidence Step.face_match c d = or_else d.score (default_confidence c)
  decided_confidence Step.otp CheckStatus.passed d = fl.decimal 1 0
  decided_confidence Step.otp _ d = fl.decimal 5 1
  decided_confidence _ c d = default_confidence c

  pub step_confidence : Step → CheckStatus → Internal → Double
  unfolding decided_confidence
  step_confidence s CheckStatus.passed internal =
      decided_confidence s CheckStatus.passed (or_else (internal.by_step s) no_details)
  step_confidence s CheckStatus.review internal =
      decided_confidence s CheckStatus.review (or_else (internal.by_step s) no_details)
  step_confidence s _ internal = fl.decimal 0 0

  -- The loop's variables: contributions, total, weighted.
  pub record Tally : Type 0 where
    pub contributions : List StepContribution
    pub total : Double
    pub weighted : Double

  -- One round for a step whose status is neither PENDING nor SKIPPED.
  contribute : Internal → Step → CheckStatus → Tally → Tally
  unfolding step_weight step_confidence
  contribute internal s c t =
      let weight = step_weight s in
      let confidence = step_confidence s c internal in
      record {
        contributions =
            t.contributions
            ++ record {
              step = step_str s;
              status = check_status_str c;
              weight = weight;
              confidence = confidence;
              score = fl.round2 (fl.mul confidence weight);
            }
              ∷ [];
        total = fl.add t.total weight;
        weighted = fl.add t.weighted (fl.mul confidence weight);
      }

  -- One round of the loop, `continue` included.
  pub tally_step : Checks → Internal → Step → Tally → Tally
  unfolding contribute
  tally_step checks internal s t =
      if check_status_eq (status_of checks s) CheckStatus.pending
        || check_status_eq (status_of checks s) CheckStatus.skipped
      then t
      else contribute internal s (status_of checks s) t

  pub tally : Checks → Internal → List Step → Tally → Tally
  unfolding tally_step
  tally checks internal [] t = t
  tally checks internal (s ∷ rest) t = tally checks internal rest (tally_step checks internal s t)

  unfoldable pub compute_risk : FlowPolicy → Checks → Internal → Double × List StepContribution
  unfolding tally decidable_steps
  compute_risk p checks internal =
      let t =
        tally checks internal (decidable_steps p)
          (record { contributions = []; total = fl.decimal 0 0; weighted = fl.decimal 0 0 }) in
      if fl.eq t.total (fl.decimal 0 0)
      then (fl.decimal 0 0, t.contributions)
      else (fl.round2 (fl.mul (fl.div t.weighted t.total) (fl.decimal 100 0)), t.contributions)

  pub risk_level : Settings → Double → Bool → String
  risk_level settings score has_reviews =
      if fl.lt score settings.risk_review_threshold
      then "REJECT"
      else if fl.lt score settings.risk_accept_threshold || has_reviews
      then "REVIEW"
      else "ACCEPT"

-- The lists that `decide` filters out of the required steps.
abbrev pub pending_steps : FlowPolicy → Checks → List Step
pending_steps p checks =
    select (λ s. check_status_eq (status_of checks s) CheckStatus.pending) (decidable_steps p)

abbrev pub failed_steps : FlowPolicy → Checks → List Step
failed_steps p checks = select (has_status checks CheckStatus.failed) (decidable_steps p)

abbrev pub review_steps : FlowPolicy → Checks → List Step
review_steps p checks = select (has_status checks CheckStatus.review) (decidable_steps p)

abbrev pub is_hard_failure : FlowPolicy → Step → Bool
is_hard_failure p s = is_hard_reject s || not (contains_step p.review_on_failure s)

abbrev pub hard_failures : FlowPolicy → Checks → List Step
hard_failures p checks = select (is_hard_failure p) (failed_steps p checks)

-- `[step for step in failed if step not in hard_failures]`
abbrev pub soft_failures : FlowPolicy → Checks → List Step
soft_failures p checks =
    select (λ s. not (contains_step (hard_failures p checks) s)) (failed_steps p checks)

-- The branches after the hard failures, with the score computed.
abbrev grade :
    FloatOps
    → Settings
    → (pending soft review : List Step) → Double × List StepContribution
    → Decision
grade fl settings pending soft review (score, contributions) =
    if non_empty pending
    then record {
      status = SessionStatus.in_progress;
      reasons = map (λ s. concat (step_str s) "_PENDING") pending;
      completed = false;
      score = score;
      risk_level = "PENDING";
      contributions = contributions;
    }
    else if non_empty soft || non_empty review
    then record {
      status = SessionStatus.review;
      reasons = map (λ s. concat (step_str s) "_REVIEW") (soft ++ review);
      completed = true;
      score = score;
      risk_level = "REVIEW";
      contributions = contributions;
    }
    else if fl.lt score settings.risk_review_threshold
    then record {
      status = SessionStatus.rejected;
      reasons = "LOW_CONFIDENCE" ∷ [];
      completed = true;
      score = score;
      risk_level = "REJECT";
      contributions = contributions;
    }
    else if fl.lt score settings.risk_accept_threshold
    then record {
      status = SessionStatus.review;
      reasons = "MEDIUM_CONFIDENCE" ∷ [];
      completed = true;
      score = score;
      risk_level = "REVIEW";
      contributions = contributions;
    }
    else record {
      status = SessionStatus.verified;
      reasons = [];
      completed = true;
      score = score;
      risk_level = "ACCEPT";
      contributions = contributions;
    }

unfoldable pub decide : FloatOps → Settings → FlowPolicy → Checks → Internal → Decision
decide fl settings p checks internal =
    if non_empty (hard_failures p checks)
    then record {
      status = SessionStatus.rejected;
      reasons = map (λ s. concat (step_str s) "_FAILED") (hard_failures p checks);
      completed = true;
      score = fl.decimal 0 0;
      risk_level = "REJECT";
      contributions = [];
    }
    else grade fl settings (pending_steps p checks) (soft_failures p checks) (review_steps p checks)
        (compute_risk fl p checks internal)
