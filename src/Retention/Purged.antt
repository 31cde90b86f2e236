-- ===== src/Retention/Purged.antt =====
-- app/services/retention.py: what is left of a session after its purge.
use ekyc.Prelude.{Bool, ◌⊎◌, All, ℕ, ◌≡◌, refl, false, none, some, [], select, str_eq}
use ekyc.Json.{end}
use ekyc.Models.{
  AuditEvent, Document, BiometricCheck, KycSession, OtpChallenge, Artifact, no_internal,
}
use ekyc.Env.{Env}
use ekyc.Exec.{Db}
use ekyc.Retention.{belongs_to, not_purged, is_eligible, outcome, marked, wiped, anonymous}

-- A row of another session, or one that has been wiped.
abbrev pub ForeignOr : Bool → Type 0 → Type 0
ForeignOr own wiped = (own ≡ false) ⊎ wiped

module _ (env : Env) where
  -- An artifact that is marked as purged, or whose deletion the vault fails.
  abbrev pub Settled : Artifact → Type 0
  Settled a =
      (not_purged a.purged_at ≡ false) ⊎ (env.vault_delete a.vault_profile a.storage_key ≡ none)

  -- What is left of a session in the tables: `t` is its row.
  pub record IsWiped (now : ℕ) (s t : KycSession) (db : Db) : Type 0 where
    pub identity : t.identity ≡ []
    pub internal : t.internal ≡ no_internal
    pub metadata : t.metadata ≡ end
    pub consent : t.consent ≡ anonymous s.consent
    pub purged_at : t.purged_at ≡ some now
    pub status : t.status ≡ s.status
    pub flow : t.flow ≡ s.flow
    pub completed_at : t.completed_at ≡ s.completed_at
    pub challenges : select (λ (c : OtpChallenge). str_eq c.session_id s.id) db.challenges ≡ []
    pub documents :
        All
          (λ (d : Document).
            ForeignOr (str_eq d.session_id s.id) ((d.ocr ≡ end) × (d.verification ≡ end)))
          db.documents
    pub biometrics :
        All
          (λ (b : BiometricCheck). ForeignOr (str_eq b.session_id s.id) (b.details ≡ end))
          db.biometrics
    pub events :
        All
          (λ (e : AuditEvent).
            ForeignOr (str_eq e.session_id s.id) ((e.ip ≡ none) × (e.user_agent ≡ none)))
          db.events
    pub artifacts :
        All (λ (a : Artifact). ForeignOr (belongs_to s.id a.session_id) (Settled a)) db.artifacts

-- Where the vault fails to delete an artifact that was not purged, the artifact stays unmarked, but
-- the session is marked as purged and no later run selects it.
marked-is_eligible :
    (env : Env) (now later : ℕ) (s : KycSession) (a : Artifact)
    → a.purged_at ≡ none
    → env.vault_delete a.vault_profile a.storage_key ≡ none
    → (marked now a (outcome env a) ≡ a) × (is_eligible later (wiped s now) ≡ false)
marked-is_eligible env now later s a fresh fails = (rw (fresh, fails) refl, refl)
