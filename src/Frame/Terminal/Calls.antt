-- ===== src/Frame/Terminal/Calls.antt =====
-- A terminal status through a history: the calls.
use ekyc.Prelude.{
  ℕ, String, ◌≡◌, ◌≢◌, refl, sym, ap, ◌∙◌, Bool-cases, inl, inr, true, ◌||◌, Option, ltb, arith,
}
use mathlib.Core.Path.{subst}
use ekyc.Json.{Fields}
use ekyc.Enums.{
  SessionStatus, CheckStatus, Step, is_terminal, session_status_eq, session_status_eq_sound,
}
use ekyc.Models.{KycSession, Tenant, StepInternal}
use ekyc.Env.{Env}
use ekyc.Exec.{Db}
use ekyc.Exec.Keeps.{Keeps, Keeps-bind, Keeps-lift, Keeps-pure, keeps_rules}
use ekyc.Decision.{Decision}
use ekyc.Kyc.Checks.{with_details_keeps}
use ekyc.Kyc.Session.{grant_consent, decline_consent, create_session}
use ekyc.Kyc.Decide.{
  set_check, checked, with_check, started, transition_allowed, decided, block, close, evaluate,
  decision_of, overridden, override_decision, as_expired, close_expired, expire,
}
use ekyc.Frame.{OtpFrame}
use ekyc.Frame.Operations.{utcnow-Keeps, load_session-Keeps}
use ekyc.Frame.OtpOps.{send_otp-Keeps, verify_otp-Keeps}
use ekyc.Frame.History.{
  Request, create, grant, decline, report, finalize, correct, expire_session, send_code,
  verify_code, log, notify, perform, Reachable, begin, call, wait,
}
use ekyc.Frame.Terminal.{
  HasStatus, Own, save_session-HasStatus, insert_session-HasStatus, Keeps-load, Keeps-lock,
  queue_session_event-HasStatus, record_event-HasStatus, modify_limiter-HasStatus,
  modify_challenges-HasStatus, draw-HasStatus,
}

started-terminal : (st : SessionStatus) → is_terminal st ≡ true → started st ≡ st
started-terminal SessionStatus.created h = cc
started-terminal SessionStatus.in_progress h = refl
started-terminal SessionStatus.processing h = refl
started-terminal SessionStatus.verified h = refl
started-terminal SessionStatus.rejected h = refl
started-terminal SessionStatus.review h = refl
started-terminal SessionStatus.expired h = refl

transition_allowed-terminal :
    (st target : SessionStatus)
    → is_terminal st ≡ true
    → transition_allowed st target ≡ true
    → target ≡ st
unfolding transition_allowed
transition_allowed-terminal st target h allowed =
    let same : session_status_eq st target ≡ true = ground arith in
    sym (session_status_eq_sound st target same)

module _ (env : Env) (sid : String) (st : SessionStatus) (terminal : is_terminal st ≡ true) where
  pub set_check-HasStatus :
      (id : String) (step : Step) (status : CheckStatus) (details : Option StepInternal)
      → Keeps (HasStatus sid st) (set_check id step status details)
  unfolding set_check
  set_check-HasStatus id step status details = Keeps-lock sid st id _ λ s known own.
      let (same_id, _, same_status) = with_details_keeps (with_check s step status) step details in
      save_session-HasStatus sid st (checked s step status details)
        λ p. ap started (same_status ∙ own (sym same_id ∙ p)) ∙ started-terminal st terminal

  close-HasStatus :
      (s : KycSession) (d : Decision)
      → (s.id ≡ sid → d.status ≡ st)
      → Keeps (HasStatus sid st) (close env s d)
  unfolding close
  close-HasStatus s d own = Keeps-bind _ _ utcnow-Keeps λ now.
      Keeps-bind _ _ (save_session-HasStatus sid st (decided env s d now) own) λ _.
        search
          (keeps_rules, record_event-HasStatus sid st env, queue_session_event-HasStatus sid st env)

  block-HasStatus : (s : KycSession) (d : Decision) → Keeps (HasStatus sid st) (block env s d)
  unfolding block
  block-HasStatus s d = search (keeps_rules, record_event-HasStatus sid st env)

  -- An allowed transition of the session leaves its status.
  allowed_keeps :
      (s : KycSession) (d : Decision)
      → Own sid st s
      → transition_allowed s.status d.status ≡ true
      → s.id ≡ sid
      → d.status ≡ st
  allowed_keeps s d own allowed p =
      transition_allowed-terminal st d.status terminal
        (subst (λ status. transition_allowed status d.status ≡ true) (own p) allowed)

  pub evaluate-HasStatus : (id : String) → Keeps (HasStatus sid st) (evaluate env id)
  unfolding evaluate
  evaluate-HasStatus id = Keeps-lock sid st id _ λ s known own.
      Keeps-bind _ _ (Keeps-lift _) λ policy.
        let d = decision_of env policy s in
        elim (Bool-cases (transition_allowed s.status d.status)) [
          | inl allowed ↦ rw allowed (close-HasStatus s d (allowed_keeps s d own allowed))
          | inr refused ↦ rw refused (block-HasStatus s d)
        ]

  close_expired-HasStatus :
      (s : KycSession) (now : ℕ) → s.id ≢ sid → Keeps (HasStatus sid st) (close_expired env s now)
  unfolding close_expired
  close_expired-HasStatus s now other =
      Keeps-bind _ _ (save_session-HasStatus sid st (as_expired env s now) λ p. absurd (other p))
        λ _.
          search (
            keeps_rules,
            record_event-HasStatus sid st env,
            queue_session_event-HasStatus sid st env,
          )

  pub expire-HasStatus : (id : String) → Keeps (HasStatus sid st) (expire env id)
  unfolding expire
  expire-HasStatus id = Keeps-lock sid st id _ λ s known own. Keeps-bind _ _ utcnow-Keeps λ now.
      elim (Bool-cases (is_terminal s.status || ltb now s.expires_at)) [
        | inl over ↦ rw over (Keeps-pure _)
        | inr running ↦ rw running (
            close_expired-HasStatus s now λ p.
              let ended : is_terminal s.status ≡ true = ap is_terminal (own p) ∙ terminal in
              ground arith)
      ]

  pub grant_consent-HasStatus :
      (id version : String) (ip agent : Option String)
      → Keeps (HasStatus sid st) (grant_consent env id version ip agent)
  unfolding grant_consent
  grant_consent-HasStatus id version ip agent = Keeps-load sid st id _ λ s known own.
      Keeps-bind _ _ utcnow-Keeps λ now.
        Keeps-bind _ _ (save_session-HasStatus sid st _ own)
          λ _. search (keeps_rules, record_event-HasStatus sid st env)

  pub decline_consent-HasStatus :
      (id version : String) (ip : Option String)
      → Keeps (HasStatus sid st) (decline_consent env id version ip)
  unfolding decline_consent
  decline_consent-HasStatus id version ip =
      search (keeps_rules, load_session-Keeps, record_event-HasStatus sid st env)

  override_decision-HasStatus :
      (id : String) (target : SessionStatus) (reason actor : String)
      → id ≢ sid
      → Keeps (HasStatus sid st) (override_decision env id target reason actor)
  unfolding override_decision
  override_decision-HasStatus id target reason actor other =
      Keeps-bind _ _ (search keeps_rules) λ _. Keeps-lock sid st id _ λ s known own.
        Keeps-bind _ _ utcnow-Keeps λ now.
          Keeps-bind _ _
            (save_session-HasStatus sid st (overridden env s target now)
              λ p. absurd (other (sym known ∙ p)))
            λ _. search (
              keeps_rules,
              record_event-HasStatus sid st env,
              queue_session_event-HasStatus sid st env,
            )

  pub create_session-HasStatus :
      (tenant : Tenant) (flow : String) (reference : Option String) (metadata : Fields)
      (jurisdiction ip : Option String)
      → Keeps (HasStatus sid st) (create_session env tenant flow reference metadata jurisdiction ip)
  unfolding create_session
  create_session-HasStatus tenant flow reference metadata jurisdiction ip =
      Keeps-bind _ _ (Keeps-lift _) λ policy. Keeps-bind _ _ (search keeps_rules) λ _.
        Keeps-bind _ _ (Keeps-lift _) λ profile. Keeps-bind _ _ (draw-HasStatus sid st) λ a.
          Keeps-bind _ _ (draw-HasStatus sid st) λ b. Keeps-bind _ _ utcnow-Keeps λ now.
            Keeps-bind _ _ (insert_session-HasStatus sid st _)
              λ _. search (keeps_rules, record_event-HasStatus sid st env)

  pub terminal_frame : OtpFrame env (HasStatus sid st)
  terminal_frame = record {
    keeps_event = record_event-HasStatus sid st env;
    keeps_limiter = modify_limiter-HasStatus sid st;
    keeps_draw = draw-HasStatus sid st;
    keeps_challenges = modify_challenges-HasStatus sid st;
    keeps_check = set_check-HasStatus;
  }

-- No override of this session.
abbrev pub Spares : String → Request → Type 0
Spares sid (correct id target reason actor) = id ≢ sid
Spares sid _ = Unit

module _ (env : Env) where
  -- No call of the history overrides this session.
  unfoldable pub AllSpare : String → {start db : Db} → Reachable env start db → Type 0
  AllSpare sid begin = Unit
  AllSpare sid (call before r) = AllSpare sid before × Spares sid r
  AllSpare sid (wait before t) = AllSpare sid before

  module _ (sid : String) (st : SessionStatus) (terminal : is_terminal st ≡ true) where
    pub perform-HasStatus :
        (r : Request) (db : Db)
        → Spares sid r
        → HasStatus sid st db
        → HasStatus sid st (perform env r db)
    perform-HasStatus (create tenant flow reference metadata jurisdiction ip) db spares =
        (create_session-HasStatus env sid st terminal tenant flow reference metadata jurisdiction
            ip).at
          db
    perform-HasStatus (grant id version ip agent) db spares =
        (grant_consent-HasStatus env sid st terminal id version ip agent).at db
    perform-HasStatus (decline id version ip) db spares =
        (decline_consent-HasStatus env sid st terminal id version ip).at db
    perform-HasStatus (report id step status details) db spares =
        (set_check-HasStatus env sid st terminal id step status details).at db
    perform-HasStatus (finalize id) db spares = (evaluate-HasStatus env sid st terminal id).at db
    perform-HasStatus (correct id target reason actor) db spares =
        (override_decision-HasStatus env sid st terminal id target reason actor spares).at db
    perform-HasStatus (expire_session id) db spares =
        (expire-HasStatus env sid st terminal id).at db
    perform-HasStatus (send_code id channel destination) db spares =
        (send_otp-Keeps env (terminal_frame env sid st terminal) id channel destination).at db
    perform-HasStatus (verify_code id code) db spares =
        (verify_otp-Keeps env (terminal_frame env sid st terminal) id code).at db
    perform-HasStatus (log new) db spares = (record_event-HasStatus sid st env new).at db
    perform-HasStatus (notify s) db spares = (queue_session_event-HasStatus sid st env s).at db

  -- Once a session has a terminal status, it keeps this status through any calls of `Request` and any passing of
  -- time, as long as no call is an override of that session.
  pub status-Reachable :
      {start db : Db} (sid : String) (st : SessionStatus)
      → is_terminal st ≡ true
      → HasStatus sid st start
      → (reached : Reachable env start db) → AllSpare sid reached
      → HasStatus sid st db
  unfolding AllSpare
  status-Reachable sid st terminal h begin spares = h
  status-Reachable sid st terminal h (call before r) spares =
      perform-HasStatus sid st terminal r _ spares.1
        (status-Reachable sid st terminal h before spares.0)
  status-Reachable sid st terminal h (wait before t) spares =
      status-Reachable sid st terminal h before spares
