-- ===== src/Workers/Failures.antt =====
-- app/workers/tasks.py, `_processing_failed`: what the failure of a task leaves of a session.
use ekyc.Prelude.{
  String, ◌≡◌, refl, sym, ap, ◌∙◌, Bool, Bool-cases, inl, inr, true, false, ◌||◌, ◌&&◌, Option,
  some, List, [], ◌∷◌, if◌then◌else◌, select,
}
use mathlib.Core.Path.{subst}
use ekyc.Enums.{CheckStatus, Step, is_terminal, step_eq, step_eq_sound}
use ekyc.Models.{KycSession}
use ekyc.Env.{Env}
use ekyc.Exec.{Db, Result, ok, pure, transaction, utcnow, ◌>>=◌}
use ekyc.Exec.Transaction.{settle-ok, bind-ok}
use ekyc.Policy.{FlowPolicy, get_policy}
use ekyc.Audit.{record_event}
use ekyc.Store.{find_session, find_session-id}
use ekyc.Kyc.Decide.{set_check, evaluate, transition_allowed, decision_of}
use ekyc.Kyc.Checks.{set_check-found, set_check-stored}
use ekyc.Kyc.Evaluate.{evaluate-allowed, evaluate-blocked, find_session-locked}
use ekyc.Workers.{
  check_pending, failed_details, failed_event, review_steps, send_to_review, processing_failed,
}

abbrev pub has_step : Step → List Step → Bool
has_step j [] = false
has_step j (step ∷ rest) = step_eq step j || has_step j rest

kept_test : (e m q : Bool) → (e ≡ true → q ≡ true) → (e || (m && q)) ≡ ((e || m) && q)
kept_test false m q h = refl
kept_test true m q h = sym (h refl)

dropped_test : (e m q : Bool) → (e ≡ true → q ≡ false) → (m && q) ≡ ((e || m) && q)
dropped_test false m q h = refl
dropped_test true false q h = sym (h refl)
dropped_test true true q h = refl

has_step-select :
    (p : Step → Bool) (j : Step) (steps : List Step)
    → has_step j (select p steps) ≡ (has_step j steps && p j)
has_step-select p j [] = refl
has_step-select p j (step ∷ rest) =
    let same = λ (e : step_eq step j ≡ true). ap p (step_eq_sound step j e) in
    elim (Bool-cases (p step)) [
      | inl kept ↦
          rw (kept, has_step-select p j rest)
            (kept_test (step_eq step j) (has_step j rest) (p j) λ e. sym (same e) ∙ kept)
      | inr dropped ↦
          rw (dropped, has_step-select p j rest)
            (dropped_test (step_eq step j) (has_step j rest) (p j) λ e. sym (same e) ∙ dropped)
    ]

either :
    {A : Type 0} (x y : A) (e m : Bool)
    → (if m then x else if e then x else y) ≡ (if e || m then x else y)
either x y true true = refl
either x y true false = refl
either x y false true = refl
either x y false false = refl

-- The operation returned, and a row of the same flow is stored, with these checks.
abbrev pub Reviewed :
    String → String → (Step → Option CheckStatus) → {A : Type 0} → Result A × Db → Type 0
Reviewed sid flow checks {A} (r, db) =
    (a : A) × (r ≡ ok a)
    × (t : KycSession) × (find_session sid db.sessions ≡ some t)
    × (t.flow ≡ flow)
    × ((j : Step) → t.checks j ≡ checks j)

module _ (env : Env) (sid task : String) where
  review_steps-Reviewed :
      (steps : List Step) (db : Db) {s : KycSession}
      → find_session sid db.sessions ≡ some s
      → Reviewed sid s.flow
          (λ j. if has_step j steps then some CheckStatus.review else s.checks j)
          (review_steps env sid task steps db)
  unfolding review_steps pure
  review_steps-Reviewed [] db {s} found = (tt, refl, s, found, refl, λ j. refl)
  review_steps-Reviewed (step ∷ rest) db {s} found =
      let details = some (failed_details env task) in
      let write = set_check sid step CheckStatus.review details in
      let wrote : (write db).0 ≡ ok tt =
        ap (λ r. r.0) (set_check-found sid step CheckStatus.review details db found) in
      let (a, e, t, stored, flow, checks) =
        review_steps-Reviewed rest (write db).1
          (set_check-stored sid step CheckStatus.review details db found) in
      rw (bind-ok write (λ _. review_steps env sid task rest) db tt wrote)
        (a, e, t, stored, flow, λ j. checks j ∙ either _ _ (step_eq step j) (has_step j rest))

  evaluate-Reviewed :
      (db : Db) {s : KycSession} {policy : FlowPolicy}
      → find_session sid db.sessions ≡ some s
      → get_policy s.flow ≡ ok policy
      → Reviewed sid s.flow s.checks (evaluate env sid db)
  evaluate-Reviewed db {s} {policy} found known =
      elim (Bool-cases (transition_allowed s.status (decision_of env policy s).status)) [
        | inl allowed ↦
            let (e, stored, log) = evaluate-allowed env sid db found known allowed in
            (_, e, _, stored, refl, λ j. refl)
        | inr refused ↦
            rw (evaluate-blocked env sid db found known refused)
              (_, refl, _, find_session-locked env sid db found known, refl, λ j. refl)
      ]

-- The checks with the pending ones of the steps sent to review.
abbrev pub reviewed : KycSession → List Step → Step → Option CheckStatus
reviewed s steps j =
    if has_step j steps && check_pending s j then some CheckStatus.review else s.checks j

module _ (env : Env) (error task : String) (steps : List Step) (db : Db) {s : KycSession}
    {policy : FlowPolicy} (known : get_policy s.flow ≡ ok policy) where
  send_to_review-Reviewed :
      find_session s.id db.sessions ≡ some s
      → Reviewed s.id s.flow (reviewed s steps) (send_to_review env s error task steps db)
  unfolding send_to_review record_event utcnow ◌>>=◌ pure
  send_to_review-Reviewed found =
      let pending = select (check_pending s) steps in
      let logged : Db = (record_event env (failed_event env s error task pending) db).1 in
      let (a, e, t, stored, flow, checks) =
        review_steps-Reviewed env s.id task pending logged found in
      let (b, e', t', stored', flow', checks') =
        evaluate-Reviewed env s.id task (review_steps env s.id task pending logged).1 stored
          (ap get_policy flow ∙ known) in
      rw (e, e')
        (
          tt,
          refl,
          t',
          stored',
          flow' ∙ flow,
          λ j.
              checks' j
              ∙ checks j
              ∙ ap (λ b. if b then some CheckStatus.review else s.checks j)
                  (has_step-select (check_pending s) j steps),
        )

-- A failed task of a stored session that is not terminal and whose flow is known leaves nothing pending behind:
-- the steps of the task that were pending are REVIEW, and the other checks are what they were.
pub processing_failed-review :
    (env : Env) (error task sid : String) (steps : List Step) (db : Db) {s : KycSession}
    {policy : FlowPolicy}
    → find_session sid db.sessions ≡ some s
    → get_policy s.flow ≡ ok policy
    → is_terminal s.status ≡ false
    → let db' = (processing_failed env error task sid steps db).1 in
      (t : KycSession) × (find_session sid db'.sessions ≡ some t)
      × ((j : Step) → t.checks j ≡ reviewed s steps j)
unfolding processing_failed transaction ◌>>=◌
processing_failed-review env error task sid steps db {s} {policy} found known open_still =
    let own = find_session-id sid s db.sessions found in
    let (a, e, t, stored, flow, checks) =
      send_to_review-Reviewed env error task steps db known
        (subst (λ i. find_session i db.sessions ≡ some s) (sym own) found) in
    rw (found, open_still, settle-ok db (send_to_review env s error task steps db) a e)
      (
        t,
        subst (λ i. find_session i (send_to_review env s error task steps db).1.sessions ≡ some t)
            own stored,
        checks,
      )
