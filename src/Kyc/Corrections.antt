-- ===== src/Kyc/Corrections.antt =====
-- app/services/kyc.py: `override_decision` and `expire`.
use ekyc.Prelude.{
  String, ◌≡◌, refl, true, false, ◌||◌, some, [], ◌∷◌, ◌++◌, arith, ltb, str_eq, eq_iff, eq_refl,
  ◌≤◌, ◌∙◌,
}
use ekyc.Enums.{SessionStatus, is_terminal}
use ekyc.Models.{KycSession}
use ekyc.Env.{Env}
use ekyc.Exec.{Db, ok, err, value_error, utcnow, ◌>>=◌}
use ekyc.Audit.{record_event, next_event}
use ekyc.Store.{
  find_session, touch, replace, save_session, lock_session-found, find_session-touch,
  find_session-replace, find_session-id,
}
use ekyc.Webhooks.Quiet.{webhook_then, webhook_last}
use ekyc.Kyc.Decide.{
  override_decision, overridden, override_event, expire, close_expired, as_expired, expired_event,
}

module _ (env : Env) (sid : String) (target : SessionStatus) (reason actor : String) (db : Db) where
  -- A target that is no terminal status is refused, and nothing is written.
  pub override_decision-refused :
      is_terminal target ≡ false
      → override_decision env sid target reason actor db ≡ (err value_error, db)
  unfolding override_decision ◌>>=◌
  override_decision-refused h = rw h

module _ (env : Env) (sid : String) (db : Db) {s : KycSession}
    (found : find_session sid db.sessions ≡ some s) where
  abbrev locked : KycSession
  locked = record s { updated_at = db.now }

  stored :
      (t : KycSession)
      → t.id ≡ s.id
      → find_session sid (replace t (touch sid db.now db.sessions)) ≡ some t
  stored t e =
      let own : str_eq t.id sid ≡ true =
        (eq_iff t.id sid).1 (e ∙ find_session-id sid s db.sessions found) in
      rw (find_session-replace, own, find_session-touch, eq_refl, found) refl

  -- On a stored session, an override to a terminal status stores that status, keeps an earlier
  -- time of completion, and records one DECISION_OVERRIDDEN event, which names the status it
  -- replaced.
  override_decision-terminal :
      (target : SessionStatus) (reason actor : String)
      → is_terminal target ≡ true
      → let (r, db') = override_decision env sid target reason actor db in
        (r ≡ ok target)
        × (find_session sid db'.sessions ≡ some (overridden env locked target db.now))
        × (db'.events
            ≡ db.events ++ next_event env (override_event env locked target reason actor) db ∷ [])
  unfolding override_decision ◌>>=◌ utcnow save_session record_event
  override_decision-terminal target reason actor h =
      rw (h, lock_session-found sid db found)
        (let (a, b, c) = webhook_then env target _ _ _ in (a, rw b (stored _ refl), c))

  -- A session that is terminal or not yet past its expiry is left alone, but for its time of update.
  pub expire-open :
      is_terminal s.status || ltb db.now s.expires_at ≡ true
      → expire env sid db ≡ (ok tt, record db { sessions = touch sid db.now db.sessions })
  unfolding expire ◌>>=◌ utcnow
  expire-open h = rw (lock_session-found sid db found, h)

  -- A stored session that is not terminal and whose expiry is reached is stored as EXPIRED by
  -- `expire`, with one SESSION_EXPIRED event.
  pub expire-closes :
      is_terminal s.status ≡ false
      → s.expires_at ≤ db.now
      → let (r, db') = expire env sid db in
        (r ≡ ok tt)
        × (find_session sid db'.sessions ≡ some (as_expired env locked db.now))
        × (db'.events ≡ db.events ++ next_event env (expired_event env locked) db ∷ [])
  unfolding expire close_expired ◌>>=◌ utcnow save_session record_event
  expire-closes running past =
      let late : ltb db.now s.expires_at ≡ false = ground arith in
      rw (lock_session-found sid db found, running, late)
        (let (a, b, c) = webhook_last env tt _ _ in (a, rw b (stored _ refl), c))
