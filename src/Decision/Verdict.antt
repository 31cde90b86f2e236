-- ===== src/Decision/Verdict.antt =====
-- app/engines/decision.py: the verdict in terms of the results of the required steps.
use ekyc.Prelude.{
  String, ◌≡◌, refl, sym, ◌∙◌, ◌⊎◌, ◌↔◌, ap, inl, inr, Bool, true, false, not, ◌||◌, some, List, [],
  ◌∷◌, ◌++◌, map, arith, select, non_empty, All, Bool-cases, concat,
}
use mathlib.Core.Path.{subst⁻¹}
use ekyc.Enums.{
  SessionStatus, CheckStatus, Step, check_status_eq, session_status_eq, step_eq, step_eq_sound,
  step_eq_refl, step_str,
}
use ekyc.Models.{Internal}
use ekyc.Env.{FloatOps, Settings}
use ekyc.Policy.{FlowPolicy, contains_step}
use ekyc.Decision.{
  Checks, decide, decidable_steps, compute_risk, status_of, has_status, pending_steps, failed_steps,
  review_steps, hard_failures, soft_failures, is_hard_failure,
}

-- The statuses that close a decision.
abbrev pub is_decided : SessionStatus → Bool
is_decided SessionStatus.verified = true
is_decided SessionStatus.rejected = true
is_decided SessionStatus.review = true
is_decided _ = false

module _ {A : Type 0} (p : A → Bool) where
  select-none : (xs : List A) → non_empty (select p xs) ≡ false → All (λ x. p x ≡ false) xs
  select-none [] h = tt
  select-none (x ∷ xs) h = ground (arith, select-none xs)

  none-select : (xs : List A) → All (λ x. p x ≡ false) xs → select p xs ≡ []
  none-select [] h = refl
  none-select (x ∷ xs) h = ground (arith, none-select xs)

select-true : {A : Type 0} (xs : List A) → select (λ x. true) xs ≡ xs
select-true [] = refl
select-true (x ∷ xs) = ap (λ t. x ∷ t) (select-true xs)

empty_of : {A : Type 0} (xs : List A) → non_empty xs ≡ false → xs ≡ []
empty_of [] h = refl
empty_of (x ∷ xs) h = cc

-- A listed step that passes the test is selected.
contains-select :
    (p : Step → Bool) (s : Step) (xs : List Step)
    → contains_step xs s ≡ true
    → p s ≡ true
    → contains_step (select p xs) s ≡ true
contains-select p s [] h e = cc
contains-select p s (x ∷ xs) h e = elim (Bool-cases (step_eq s x)) [
  | inl same ↦ rw (← step_eq_sound s x same, e) (ground (arith, step_eq_refl s))
  | inr other ↦ ground (arith, contains-select p s xs)
]

non_empty-map : {A : Type 0} (f : A → String) (xs : List A) → non_empty (map f xs) ≡ non_empty xs
non_empty-map f [] = refl
non_empty-map f (x ∷ xs) = refl

non_empty-append :
    {A : Type 0} (xs ys : List A) → non_empty (xs ++ ys) ≡ non_empty xs || non_empty ys
non_empty-append [] ys = refl
non_empty-append (x ∷ xs) ys = refl

-- With no hard failure every failure is soft.
soft-eq-failed :
    (hard xs : List Step) → hard ≡ [] → select (λ s. not (contains_step hard s)) xs ≡ xs
soft-eq-failed hard xs e =
    subst⁻¹ (λ h. select (λ s. not (contains_step h s)) xs ≡ xs) e (select-true xs)

contains-non_empty : (xs : List Step) (s : Step) → contains_step xs s ≡ true → non_empty xs ≡ true
contains-non_empty [] s h = cc
contains-non_empty (x ∷ xs) s h = refl

module _ (fl : FloatOps) (st : Settings) (p : FlowPolicy) (checks : Checks)
    (internal : Internal) where
  -- A required step (other than the hidden OCR, selfie and document) that failed, and that the
  -- policy does not send to review (or liveness, always), rejects the session whatever the other
  -- steps and the score say.
  pub decide-rejected :
      (s : Step)
      → contains_step (decidable_steps p) s ≡ true
      → checks s ≡ some CheckStatus.failed
      → is_hard_failure p s ≡ true
      → ((decide fl st p checks internal).status ≡ SessionStatus.rejected)
        × ((decide fl st p checks internal).completed ≡ true)
  unfolding decide
  decide-rejected s listed e hard =
      let in_failed : contains_step (failed_steps p checks) s ≡ true =
        contains-select (has_status checks CheckStatus.failed) s (decidable_steps p) listed
          (rw (e, has_status)) in
      let some_hard : non_empty (hard_failures p checks) ≡ true =
        contains-non_empty _ s (contains-select (is_hard_failure p) s _ in_failed hard) in
      (rw some_hard, rw some_hard)

  none_failed :
      non_empty (hard_failures p checks) ≡ false
      → non_empty (soft_failures p checks) ≡ false
      → failed_steps p checks ≡ []
  none_failed no_hard no_soft =
      sym (soft-eq-failed _ (failed_steps p checks) (empty_of _ no_hard)) ∙ empty_of _ no_soft

  verified_guards :
      (decide fl st p checks internal).status ≡ SessionStatus.verified
      → (non_empty (hard_failures p checks) ≡ false)
        × (non_empty (pending_steps p checks) ≡ false)
        × (non_empty (soft_failures p checks) ≡ false)
        × (non_empty (review_steps p checks) ≡ false)
        × (fl.lt (compute_risk fl p checks internal).0 st.risk_review_threshold ≡ false)
        × (fl.lt (compute_risk fl p checks internal).0 st.risk_accept_threshold ≡ false)
  unfolding decide
  verified_guards h = ground arith

  guards_verified :
      failed_steps p checks ≡ []
      → pending_steps p checks ≡ []
      → review_steps p checks ≡ []
      → fl.lt (compute_risk fl p checks internal).0 st.risk_review_threshold ≡ false
      → fl.lt (compute_risk fl p checks internal).0 st.risk_accept_threshold ≡ false
      → (decide fl st p checks internal).status ≡ SessionStatus.verified
  unfolding decide
  guards_verified a b c d e = rw (a, b, c, d, e) refl

  settled :
      (s : Step)
      → check_status_eq (status_of checks s) CheckStatus.pending ≡ false
      → has_status checks CheckStatus.failed s ≡ false
      → has_status checks CheckStatus.review s ≡ false
      → (checks s ≡ some CheckStatus.passed) ⊎ (checks s ≡ some CheckStatus.skipped)
  settled s a b c = ground arith

  settled-All :
      (xs : List Step)
      → All (λ s. check_status_eq (status_of checks s) CheckStatus.pending ≡ false) xs
      → All (λ s. has_status checks CheckStatus.failed s ≡ false) xs
      → All (λ s. has_status checks CheckStatus.review s ≡ false) xs
      → All (λ s. (checks s ≡ some CheckStatus.passed) ⊎ (checks s ≡ some CheckStatus.skipped)) xs
  settled-All [] a b c = tt
  settled-All (x ∷ xs) a b c = (settled x a.0 b.0 c.0, settled-All xs a.1 b.1 c.1)

  unsettled-All :
      (xs : List Step)
      → All (λ s. (checks s ≡ some CheckStatus.passed) ⊎ (checks s ≡ some CheckStatus.skipped)) xs
      → (select (λ s. check_status_eq (status_of checks s) CheckStatus.pending) xs ≡ [])
        × (select (has_status checks CheckStatus.failed) xs ≡ [])
        × (select (has_status checks CheckStatus.review) xs ≡ [])
  unsettled-All [] h = (refl, refl, refl)
  unsettled-All (x ∷ xs) h = ground (arith, unsettled-All xs h.1)

  -- VERIFIED exactly when every required step (other than the hidden OCR, selfie and document) has
  -- passed or was skipped and the score is below neither threshold.
  pub decide-verified_iff : ((decide fl st p checks internal).status ≡ SessionStatus.verified) ↔ (
      All
        (λ s. (checks s ≡ some CheckStatus.passed) ⊎ (checks s ≡ some CheckStatus.skipped))
        (decidable_steps p)
      × (fl.lt (compute_risk fl p checks internal).0 st.risk_review_threshold ≡ false)
      × (fl.lt (compute_risk fl p checks internal).0 st.risk_accept_threshold ≡ false))
  decide-verified_iff = (
    λ h.
        let (no_hard, no_pending, no_soft, no_review, over_review, over_accept) =
          verified_guards h in
        (
          settled-All (decidable_steps p) (select-none _ _ no_pending)
              (select-none _ _ (ap non_empty (none_failed no_hard no_soft)))
              (select-none _ _ no_review),
          over_review,
          over_accept,
        ),
    λ h.
        let (no_pending, no_failed, no_review) = unsettled-All (decidable_steps p) h.0 in
        guards_verified no_failed no_pending no_review h.1 h.2,
  )

  -- What each branch of `decide` shares: it is complete unless it says IN_PROGRESS, and its reasons
  -- are empty exactly when it says VERIFIED.
  pub decide_shape :
      let d = decide fl st p checks internal in
      (is_decided d.status ≡ d.completed)
      × (non_empty d.reasons ≡ not (session_status_eq d.status SessionStatus.verified))
  unfolding decide
  decide_shape = ground (
    arith,
    non_empty-map (λ (s : Step). concat (step_str s) "_FAILED") (hard_failures p checks),
    non_empty-map (λ (s : Step). concat (step_str s) "_PENDING") (pending_steps p checks),
    non_empty-map (λ (s : Step). concat (step_str s) "_REVIEW")
        (soft_failures p checks ++ review_steps p checks),
    non_empty-append (soft_failures p checks) (review_steps p checks),
  )
