-- ===== src/Kyc/Evaluate.antt =====
-- app/services/kyc.py: `evaluate` on each of its branches.
use ekyc.Prelude.{
  String, ◌≡◌, refl, inl, inr, true, false, some, [], ◌∷◌, ◌++◌, if◌then◌else◌, str_eq, eq_iff,
  eq_refl, Bool-cases, sym, append-nil,
}
use ekyc.Enums.{is_terminal, session_status_eq, session_status_eq_sound}
use ekyc.Models.{KycSession}
use ekyc.Env.{Env}
use ekyc.Exec.{Db, ok, lift, utcnow, ◌>>=◌}
use ekyc.Policy.{FlowPolicy, get_policy}
use ekyc.Audit.{record_event, next_event}
use ekyc.Webhooks.Quiet.{webhook_then}
use ekyc.Store.{
  find_session, lock_session, save_session, touch, replace, find_session-replace,
  lock_session-found, find_session-touch, find_session-id,
}
use ekyc.Decision.{Decision}
use ekyc.Kyc.Decide.{
  decision_of, transition_allowed, evaluate, block, close, closes_now, decided, blocked_event,
  decision_event,
}

module _ (env : Env) where
  -- The closing branch returns the decided status, writes the decided row, and records the decision
  -- when the session was not completed before.
  close-effect :
      (l : KycSession) (d : Decision) (db : Db)
      → let (r, db') = close env l d db in
        (r ≡ ok d.status)
        × (db'.sessions ≡ replace (decided env l d db.now) db.sessions)
        × (db'.events
            ≡ db.events
              ++ (if closes_now env d l.completed_at
                  then next_event env (decision_event env l d) db ∷ []
                  else []))
  unfolding close ◌>>=◌ utcnow save_session record_event
  close-effect l d db = elim (Bool-cases (closes_now env d l.completed_at)) [
    | inl records ↦ rw records (webhook_then env d.status _ (decided env l d db.now) _)
    | inr repeated ↦
        rw (repeated, append-nil) (webhook_then env d.status _ (decided env l d db.now) _)
  ]

module _ (env : Env) (sid : String) (db : Db) {s : KycSession} {policy : FlowPolicy}
    (found : find_session sid db.sessions ≡ some s) (known : get_policy s.flow ≡ ok policy) where
  -- The row as the lock reads it.
  abbrev locked : KycSession
  locked = record s { updated_at = db.now }

  -- `evaluate` on a stored session is the decision on its row, then one of the two branches.
  evaluate-found :
      evaluate env sid db
      ≡ (if transition_allowed s.status (decision_of env policy s).status
            then close env locked (decision_of env policy s)
            else block env locked (decision_of env policy s))
          (lock_session sid db).1
  unfolding evaluate ◌>>=◌ lift
  evaluate-found = rw (lock_session-found sid db found, known)

  pub find_session-locked : find_session sid (touch sid db.now db.sessions) ≡ some locked
  find_session-locked = rw (find_session-touch, eq_refl, found)

  own_id : str_eq s.id sid ≡ true
  own_id = (eq_iff s.id sid).1 (find_session-id sid s db.sessions found)

  -- On a stored session of a known flow, `evaluate` with a refused transition changes nothing of
  -- the session but its time of update, records one DECISION_BLOCKED event and returns the stored
  -- status.
  pub evaluate-blocked :
      transition_allowed s.status (decision_of env policy s).status ≡ false
      → evaluate env sid db ≡ (
        ok s.status,
        record db {
          sessions = touch sid db.now db.sessions;
          events =
              db.events
              ++ next_event env (blocked_event env locked (decision_of env policy s)) db ∷ [];
        },
      )
  unfolding block ◌>>=◌ record_event utcnow
  evaluate-blocked refused = rw (evaluate-found, refused, lock_session-found sid db found) refl

  -- On a stored session of a known flow, `evaluate` with an allowed transition stores the
  -- decision, returns the status that it stored, and records the decision exactly where it
  -- completes a session that was not completed.
  pub evaluate-allowed :
      transition_allowed s.status (decision_of env policy s).status ≡ true
      → let d = decision_of env policy s in
        let (r, db') = evaluate env sid db in
        (r ≡ ok d.status)
        × (find_session sid db'.sessions ≡ some (decided env locked d db.now))
        × (db'.events
            ≡ db.events
              ++ (if closes_now env d s.completed_at
                  then next_event env (decision_event env locked d) db ∷ []
                  else []))
  evaluate-allowed allowed =
      rw (evaluate-found, allowed, lock_session-found sid db found)
        (let effect =
            close-effect env locked (decision_of env policy s)
              (record db { sessions = touch sid db.now db.sessions }) in
          (
            effect.0,
            rw (effect.1, find_session-replace, own_id, find_session-locked) refl,
            effect.2,
          ))

  -- A stored session of a known flow that is terminal keeps its status under `evaluate`, whatever
  -- the checks have become, and the status returned is the one stored.
  pub evaluate-terminal :
      is_terminal s.status ≡ true
      → let (r, db') = evaluate env sid db in
        (t : KycSession) × (find_session sid db'.sessions ≡ some t)
        × (t.status ≡ s.status)
        × (r ≡ ok s.status)
  unfolding transition_allowed
  evaluate-terminal terminal =
      elim (Bool-cases (session_status_eq s.status (decision_of env policy s).status)) [
        | inl same ↦
            let allowed : transition_allowed s.status (decision_of env policy s).status ≡ true =
              rw (terminal, same) in
            let e = session_status_eq_sound s.status _ same in
            let (a, b, c) = evaluate-allowed allowed in
            (decided env locked (decision_of env policy s) db.now, b, sym e, rw e a)
        | inr other ↦
            let refused : transition_allowed s.status (decision_of env policy s).status ≡ false =
              rw (terminal, other) in
            rw (evaluate-blocked refused) (locked, find_session-locked, refl, refl)
      ]
