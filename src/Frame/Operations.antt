-- ===== src/Frame/Operations.antt =====
-- The operations of app/services/kyc.py under the interface of `ekyc.Frame`.
use ekyc.Prelude.{ℕ, String, Option, none, some}
use ekyc.Json.{Fields}
use ekyc.Enums.{SessionStatus, CheckStatus, Step}
use ekyc.Models.{KycSession, Tenant, StepInternal}
use ekyc.Env.{Env}
use ekyc.Exec.{Db, Exn, or_raise, utcnow}
use ekyc.Exec.Keeps.{Keeps, Keeps-bind, Keeps-lift, keeps_rules}
use ekyc.Store.{load_session, lock_session}
use ekyc.Decision.{Decision}
use ekyc.Kyc.Session.{grant_consent, decline_consent, create_session}
use ekyc.Kyc.Decide.{set_check, block, close, evaluate, override_decision, close_expired, expire}
use ekyc.Frame.{Frame, TableFrame, OtpFrame}

module _ {P : Db → Type 0} where
  pub or_raise-Keeps : {A : Type 0} (o : Option A) (e : Exn) → Keeps P (or_raise o e)
  or_raise-Keeps none e = search keeps_rules
  or_raise-Keeps (some a) e = search keeps_rules

  pub utcnow-Keeps : Keeps P utcnow
  unfolding utcnow
  utcnow-Keeps = search keeps_rules

  pub load_session-Keeps : (id : String) → Keeps P (load_session id)
  unfolding load_session
  load_session-Keeps id = search (keeps_rules, or_raise-Keeps)

module _ (env : Env) {P : Db → Type 0} (frame : Frame env P) where
  open frame use {keeps_event, keeps_webhook, keeps_save, keeps_touch, keeps_insert, keeps_draw}

  pub lock_session-Keeps : (id : String) → Keeps P (lock_session id)
  unfolding lock_session
  lock_session-Keeps id = search (keeps_rules, keeps_touch, utcnow-Keeps, load_session-Keeps)

  pub set_check-Keeps :
      (sid : String) (step : Step) (status : CheckStatus) (details : Option StepInternal)
      → Keeps P (set_check sid step status details)
  unfolding set_check
  set_check-Keeps sid step status details = search (keeps_rules, keeps_save, lock_session-Keeps)

  close-Keeps : (s : KycSession) (d : Decision) → Keeps P (close env s d)
  unfolding close
  close-Keeps s d =
      search (keeps_rules, keeps_save, keeps_event, keeps_webhook, utcnow-Keeps) depth 9

  block-Keeps : (s : KycSession) (d : Decision) → Keeps P (block env s d)
  unfolding block
  block-Keeps s d = search (keeps_rules, keeps_event)

  pub evaluate-Keeps : (sid : String) → Keeps P (evaluate env sid)
  unfolding evaluate
  evaluate-Keeps sid = search (keeps_rules, lock_session-Keeps, close-Keeps, block-Keeps)

  pub override_decision-Keeps :
      (sid : String) (target : SessionStatus) (reason actor : String)
      → Keeps P (override_decision env sid target reason actor)
  unfolding override_decision
  override_decision-Keeps sid target reason actor =
      search (keeps_rules, lock_session-Keeps, keeps_save, keeps_event, keeps_webhook, utcnow-Keeps)
        depth 9

  close_expired-Keeps : (s : KycSession) (now : ℕ) → Keeps P (close_expired env s now)
  unfolding close_expired
  close_expired-Keeps s now = search (keeps_rules, keeps_save, keeps_event, keeps_webhook)

  pub expire-Keeps : (sid : String) → Keeps P (expire env sid)
  unfolding expire
  expire-Keeps sid = search (keeps_rules, lock_session-Keeps, utcnow-Keeps, close_expired-Keeps)

  pub grant_consent-Keeps :
      (sid version : String) (ip agent : Option String)
      → Keeps P (grant_consent env sid version ip agent)
  unfolding grant_consent
  grant_consent-Keeps sid version ip agent =
      search (keeps_rules, load_session-Keeps, utcnow-Keeps, keeps_save, keeps_event)

  pub decline_consent-Keeps :
      (sid version : String) (ip : Option String) → Keeps P (decline_consent env sid version ip)
  unfolding decline_consent
  decline_consent-Keeps sid version ip = search (keeps_rules, load_session-Keeps, keeps_event)

  pub create_session-Keeps :
      (tenant : Tenant) (flow : String) (reference : Option String) (metadata : Fields)
      (jurisdiction ip : Option String)
      → Keeps P (create_session env tenant flow reference metadata jurisdiction ip)
  unfolding create_session
  create_session-Keeps tenant flow reference metadata jurisdiction ip =
      Keeps-bind _ _ (Keeps-lift _) λ policy. Keeps-bind _ _ (search keeps_rules) λ _.
        Keeps-bind _ _ (Keeps-lift _) λ profile. Keeps-bind _ _ keeps_draw λ a.
          Keeps-bind _ _ keeps_draw
            λ b. search (keeps_rules, utcnow-Keeps, keeps_insert, keeps_event) depth 9

pub otp_frame : (env : Env) {P : Db → Type 0} → TableFrame env P → OtpFrame env P
otp_frame env tables = record {
  keeps_event = tables.frame.keeps_event;
  keeps_limiter = tables.frame.keeps_limiter;
  keeps_draw = tables.frame.keeps_draw;
  keeps_challenges = tables.keeps_challenges;
  keeps_check = set_check-Keeps env tables.frame;
}
