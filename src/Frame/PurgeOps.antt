-- ===== src/Frame/PurgeOps.antt =====
-- The purge of app/services/retention.py under the interface of `ekyc.Frame`.
use ekyc.Prelude.{ℕ, String, List, [], ◌∷◌}
use ekyc.Models.{KycSession}
use ekyc.Env.{Env}
use ekyc.Exec.{Db, modify}
use ekyc.Exec.Keeps.{Keeps, Keeps-bind, Keeps-gets, Keeps-pure}
use ekyc.Frame.{TableFrame}
use ekyc.Frame.Operations.{utcnow-Keeps}
use ekyc.Retention.{clear_origins, purge_session, purge_all, purge_expired_sessions, eligible}

module _ (env : Env) {P : Db → Type 0} (tables : TableFrame env P)
    (keeps_clear : (sid : String)
      → Keeps P (modify (λ db. record db { events = clear_origins sid db.events }))) where
  open tables use {frame, keeps_challenges, keeps_documents, keeps_artifacts, keeps_biometrics}
  open frame use {keeps_event, keeps_save}

  purge_session-Keeps : (s : KycSession) (now : ℕ) → Keeps P (purge_session env s now)
  unfolding purge_session
  purge_session-Keeps s now = Keeps-bind _ _ (Keeps-gets _) λ artifacts.
      Keeps-bind _ _ (keeps_event _) λ _. Keeps-bind _ _ (keeps_artifacts _) λ _.
        Keeps-bind _ _ (keeps_save _) λ _. Keeps-bind _ _ (keeps_documents _) λ _.
          Keeps-bind _ _ (keeps_biometrics _) λ _.
            Keeps-bind _ _ (keeps_challenges _)
              λ _. Keeps-bind _ _ (keeps_clear s.id) λ _. Keeps-pure _

  purge_all-Keeps : (now : ℕ) (sessions : List KycSession) → Keeps P (purge_all env now sessions)
  unfolding purge_all
  purge_all-Keeps now [] = Keeps-pure _
  purge_all-Keeps now (s ∷ rest) =
      Keeps-bind _ _ (purge_session-Keeps s now)
        λ r. Keeps-bind _ _ (purge_all-Keeps now rest) λ total. Keeps-pure _

  pub purge_expired_sessions-Keeps :
      (batch_size : ℕ) → Keeps P (purge_expired_sessions env batch_size)
  unfolding purge_expired_sessions eligible
  purge_expired_sessions-Keeps batch_size = Keeps-bind _ _ utcnow-Keeps λ now.
      Keeps-bind _ _ (Keeps-gets _)
        λ sessions. Keeps-bind _ _ (purge_all-Keeps now sessions) λ total. Keeps-pure _
