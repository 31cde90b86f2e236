-- ===== src/Kyc/Checks.antt =====
-- app/services/kyc.py: what `set_check` writes.
use ekyc.Prelude.{
  String, ◌≡◌, ◌≢◌, refl, inl, inr, true, false, Option, none, some, if◌then◌else◌, str_eq, eq_iff,
  eq_refl, ◌∙◌, ap, sym, Bool-cases,
}
use ekyc.Enums.{CheckStatus, Step, step_eq, step_eq_refl, step_eq_sound}
use ekyc.Models.{KycSession, StepInternal}
use ekyc.Exec.{Db, ok, ◌>>=◌}
use ekyc.Store.{
  find_session, touch, replace, save_session, lock_session-found, find_session-touch,
  find_session-replace, find_session-id,
}
use ekyc.Kyc.Decide.{with_check, with_details, checked, started, set_check}

pub with_details_keeps :
    (s : KycSession) (step : Step) (d : Option StepInternal)
    → ((with_details s step d).id ≡ s.id)
      × ((with_details s step d).checks ≡ s.checks)
      × ((with_details s step d).status ≡ s.status)
with_details_keeps s step none = (refl, refl, refl)
with_details_keeps s step (some d) = (refl, refl, refl)

module _ (sid : String) (step : Step) (status : CheckStatus) (d : Option StepInternal) (db : Db)
    {s : KycSession} (found : find_session sid db.sessions ≡ some s) where
  -- The check is written into the row as the lock reads it; nothing else of the database changes.
  pub set_check-found : set_check sid step status d db ≡ (
    ok tt,
    record db {
      sessions =
          replace
            (checked (record s { updated_at = db.now }) step status d)
            (touch sid db.now db.sessions);
    },
  )
  unfolding set_check ◌>>=◌ save_session
  set_check-found = rw (lock_session-found sid db found)

  pub set_check-stored :
      find_session sid (set_check sid step status d db).1.sessions
      ≡ some (checked (record s { updated_at = db.now }) step status d)
  set_check-stored =
      let own : str_eq (checked (record s { updated_at = db.now }) step status d).id sid ≡ true =
        (eq_iff _ sid).1
          ((with_details_keeps _ step d).0 ∙ find_session-id sid s db.sessions found) in
      rw (set_check-found, find_session-replace, own, find_session-touch, eq_refl, found) refl

  -- After `set_check` on a stored session, the stored row has the new status at the step and its
  -- old ones elsewhere, and a CREATED session is IN_PROGRESS; any other status is kept.
  pub set_check-checks :
      (t : KycSession) × (find_session sid (set_check sid step status d db).1.sessions ≡ some t)
      × ((j : Step) → t.checks j ≡ (if step_eq step j then some status else s.checks j))
      × (t.status ≡ started s.status)
  set_check-checks =
      let (same_id, same_checks, same_status) =
        with_details_keeps (with_check (record s { updated_at = db.now }) step status) step d in
      (
        checked (record s { updated_at = db.now }) step status d,
        set_check-stored,
        λ j. ap (λ f. f j) same_checks,
        ap started same_status,
      )

step_eq_ne : (a b : Step) → a ≢ b → step_eq b a ≡ false
step_eq_ne a b ne = elim (Bool-cases (step_eq b a)) [
  | inl same ↦ absurd (ne (sym (step_eq_sound b a same)))
  | inr other ↦ other
]

-- Two writes to a stored session at different steps, one after the other on the row that the lock
-- reads anew, are both in the stored row: neither is lost.
set_check-both :
    (sid : String) (a b : Step) (x y : CheckStatus) (d e : Option StepInternal) (db : Db)
    {s : KycSession}
    → a ≢ b
    → find_session sid db.sessions ≡ some s
    → let db' = (set_check sid b y e (set_check sid a x d db).1).1 in
      (t : KycSession) × (find_session sid db'.sessions ≡ some t)
      × (t.checks a ≡ some x)
      × (t.checks b ≡ some y)
set_check-both sid a b x y d e db ne found =
    let (s', found', checks', _) = set_check-checks sid a x d db found in
    let (t, stored, checks, _) = set_check-checks sid b y e (set_check sid a x d db).1 found' in
    (
      t,
      stored,
      checks a ∙ rw (step_eq_ne a b ne) (checks' a ∙ rw step_eq_refl),
      checks b ∙ rw step_eq_refl,
    )
