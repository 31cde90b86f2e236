-- ===== src/Retention.antt =====
-- app/services/retention.py: the purge of personal data after the retention period.
pub mod Chains
pub mod Purged
use ekyc.Prelude.{
  ℕ, ◌+◌, ◌*◌, String, Bool, true, false, ◌&&◌, Option, none, some, List, [], ◌∷◌, map, length,
  take, select, leb, if◌then◌else◌, str_eq,
}
use ekyc.Json.{dict, int, str, arr, strings, end}
use ekyc.Enums.{AuditEventType, is_terminal}
use ekyc.Models.{
  KycSession, Consent, Artifact, Document, BiometricCheck, OtpChallenge, AuditEvent, no_internal,
}
use ekyc.Env.{Env}
use ekyc.Exec.{Db, Exec, pure, gets, modify, utcnow, ◌>>=◌, ◌>>◌}
use ekyc.Audit.{NewEvent, system_event, record_event}
use ekyc.Store.{
  save_session, modify_documents, modify_biometrics, modify_challenges, modify_artifacts,
}

abbrev pub seconds_per_day : ℕ
seconds_per_day = 86400

abbrev pub not_purged : Option ℕ → Bool
not_purged none = true
not_purged (some at) = false

-- A closed session, not yet purged, whose retention period is over.
abbrev pub is_eligible : ℕ → KycSession → Bool
is_eligible now s =
    not_purged s.purged_at
    && (is_terminal s.status && leb (s.created_at + s.retention_days * seconds_per_day) now)

-- `_eligible`
unfoldable pub eligible : ℕ → ℕ → Exec (List KycSession)
eligible now batch_size = gets (λ db. take batch_size (select (is_eligible now) db.sessions))

abbrev pub belongs_to : String → Option String → Bool
belongs_to sid none = false
belongs_to sid (some owner) = str_eq owner sid

-- What one round of the deletion loop does.
pub data Outcome : Type 0 where
  kept deleted missing failed : Outcome

abbrev pub reply_outcome : Option Bool → Outcome
reply_outcome none = failed
reply_outcome (some true) = deleted
reply_outcome (some false) = missing

abbrev pub outcome : Env → Artifact → Outcome
outcome env a =
    if not_purged a.purged_at
    then reply_outcome (env.vault_delete a.vault_profile a.storage_key)
    else kept

abbrev pub marked : ℕ → Artifact → Outcome → Artifact
marked now a deleted = record a { purged_at = some now }
marked now a missing = record a { purged_at = some now }
marked now a _ = a

abbrev pub purge_artifacts : Env → String → ℕ → List Artifact → List Artifact
purge_artifacts env sid now [] = []
purge_artifacts env sid now (a ∷ rest) =
    (if belongs_to sid a.session_id then marked now a (outcome env a) else a)
    ∷ purge_artifacts env sid now rest

-- The counters of a purge.
pub record Report : Type 0 where
  pub sessions_purged : ℕ
  pub artifacts_deleted : ℕ
  pub artifacts_missing : ℕ
  pub artifacts_failed : ℕ
  pub bytes_freed : ℕ
  pub session_ids : List String

abbrev pub no_report : Report
no_report = record {
  sessions_purged = 0;
  artifacts_deleted = 0;
  artifacts_missing = 0;
  artifacts_failed = 0;
  bytes_freed = 0;
  session_ids = [];
}

abbrev pub counted : Artifact → Outcome → Report → Report
counted a kept r = r
counted a deleted r = record r {
  artifacts_deleted = r.artifacts_deleted + 1;
  bytes_freed = r.bytes_freed + a.size_bytes;
}
counted a missing r = record r { artifacts_missing = r.artifacts_missing + 1 }
counted a failed r = record r { artifacts_failed = r.artifacts_failed + 1 }

abbrev pub count_all : Env → List Artifact → Report → Report
count_all env [] r = r
count_all env (a ∷ rest) r = count_all env rest (counted a (outcome env a) r)

abbrev pub anonymous : Option Consent → Option Consent
anonymous none = none
anonymous (some c) = some (record c { ip = none; user_agent = none })

-- The fields of the session that the purge writes.
abbrev pub wiped : KycSession → ℕ → KycSession
wiped s now = record s {
  identity = [];
  internal = no_internal;
  metadata = end;
  consent = anonymous s.consent;
  purged_at = some now;
}

abbrev pub wipe_documents : String → List Document → List Document
wipe_documents sid [] = []
wipe_documents sid (d ∷ rest) =
    (if str_eq d.session_id sid then record d { ocr = end; verification = end } else d)
    ∷ wipe_documents sid rest

abbrev pub wipe_biometrics : String → List BiometricCheck → List BiometricCheck
wipe_biometrics sid [] = []
wipe_biometrics sid (b ∷ rest) =
    (if str_eq b.session_id sid then record b { details = end } else b) ∷ wipe_biometrics sid rest

abbrev pub drop_challenges : String → List OtpChallenge → List OtpChallenge
drop_challenges sid [] = []
drop_challenges sid (c ∷ rest) =
    if str_eq c.session_id sid then drop_challenges sid rest else c ∷ drop_challenges sid rest

abbrev pub clear_origin : String → AuditEvent → AuditEvent
clear_origin sid e =
    if str_eq e.session_id sid then record e { ip = none; user_agent = none } else e

abbrev pub clear_origins : String → List AuditEvent → List AuditEvent
clear_origins sid [] = []
clear_origins sid (e ∷ rest) = clear_origin sid e ∷ clear_origins sid rest

unfoldable pub purge_event : KycSession → List Artifact → NewEvent
purge_event s artifacts = system_event s.tenant_id s.id AuditEventType.data_purged (
    dict (
      ("retention_days", int s.retention_days)
      ∷ ("jurisdiction", str s.jurisdiction)
      ∷ ("artifact_count", int (length artifacts))
      ∷ ("artifact_sha256", strings (map (λ (a : Artifact). a.sha256) artifacts))
      ∷ []))

module _ (env : Env) where
  -- `_purge_session`; the report has no session counted.
  unfoldable pub purge_session : KycSession → ℕ → Exec Report
  purge_session s now = do
    artifacts ← gets (λ db. select (λ (a : Artifact). belongs_to s.id a.session_id) db.artifacts)
    record_event env (purge_event s artifacts)
    modify_artifacts (purge_artifacts env s.id now)
    save_session (wiped s now)
    modify_documents (wipe_documents s.id)
    modify_biometrics (wipe_biometrics s.id)
    modify_challenges (drop_challenges s.id)
    modify (λ db. record db { events = clear_origins s.id db.events })
    pure (count_all env artifacts no_report)

  abbrev pub added : Report → Report → KycSession → Report
  added total r s = record {
    sessions_purged = total.sessions_purged + 1;
    artifacts_deleted = total.artifacts_deleted + r.artifacts_deleted;
    artifacts_missing = total.artifacts_missing + r.artifacts_missing;
    artifacts_failed = total.artifacts_failed + r.artifacts_failed;
    bytes_freed = total.bytes_freed + r.bytes_freed;
    session_ids = s.id ∷ total.session_ids;
  }

  -- The loop of `purge_expired_sessions`; the ids stand in the order of the purge when it ends.
  unfoldable pub purge_all : ℕ → List KycSession → Exec Report
  purge_all now [] = pure no_report
  purge_all now (s ∷ rest) = do
    r ← purge_session s now
    total ← purge_all now rest
    pure (added total r s)

  -- The text of the instant (`ran_at`) and the counters of the run.
  unfoldable pub purge_expired_sessions : ℕ → Exec (String × Report)
  unfolding purge_all
  purge_expired_sessions batch_size = do
    now ← utcnow
    sessions ← eligible now batch_size
    total ← purge_all now sessions
    pure (env.isoformat now, total)
