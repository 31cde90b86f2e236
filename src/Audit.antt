-- ===== src/Audit.antt =====
-- app/engines/audit.py and app/core/hashing.py: append-only, hash-chained events.
pub mod Chain
pub mod Verify
pub mod Tamper
use ekyc.Prelude.{
  ℕ, zero, suc, ◌+◌, String, Bool, true, false, not, ◌||◌, Option, none, some, List, [], ◌∷◌, ◌++◌,
  length, select, ltb, leb, ◌==◌, if◌then◌else◌, str_eq, or_else,
}
use ekyc.Json.{Json, Fields, null, int, str, obj, dict}
use ekyc.Enums.{AuditEventType, audit_event_type_str}
use ekyc.Models.{AuditEvent}
use ekyc.Env.{Env}
use ekyc.Exec.{Db, Result, ok, Exec, pure, gets, modify, utcnow, ◌>>=◌, ◌>>◌}

-- app/core/hashing.py
unfoldable pub sha256_text : Env → String → String
sha256_text env text = env.sha256 text

unfoldable pub canonical_json : Env → Json → String
canonical_json env payload = env.dumps payload

unfoldable pub sha256_json : Env → Json → String
unfolding sha256_text canonical_json
sha256_json env payload = sha256_text env (canonical_json env payload)

abbrev pub optional_str : Option String → Json
optional_str none = null
optional_str (some s) = str s

-- The dictionary that is hashed for an event.
unfoldable pub hashed_object : Env → AuditEvent → Json
hashed_object env e = obj (
    dict (
      ("sequence", int e.sequence)
      ∷ ("event_type", str e.event_type)
      ∷ ("session_id", str e.session_id)
      ∷ ("tenant_id", str e.tenant_id)
      ∷ ("actor", str e.actor)
      ∷ ("created_at", str (env.isoformat e.created_at))
      ∷ ("payload", obj e.payload)
      ∷ ("document_hash", optional_str e.document_hash)
      ∷ ("previous_event_hash", optional_str e.previous_event_hash)
      ∷ []))

unfoldable pub compute_event_hash : Env → AuditEvent → String
unfolding sha256_json hashed_object
compute_event_hash env e = sha256_json env (hashed_object env e)

-- The rows of one session.
abbrev pub events_of : String → List AuditEvent → List AuditEvent
events_of sid = select (λ e. str_eq e.session_id sid)

-- The later of two rows under `order_by(sequence.desc())`.
abbrev pub later_of : AuditEvent → Option AuditEvent → AuditEvent
later_of e none = e
later_of e (some m) = if ltb m.sequence e.sequence then e else m

-- `order_by(sequence.desc()).limit(1)`
abbrev pub latest : List AuditEvent → Option AuditEvent
latest [] = none
latest (e ∷ es) = some (later_of e (latest es))

-- `order_by(sequence.asc())`
abbrev pub insert_by_sequence : AuditEvent → List AuditEvent → List AuditEvent
insert_by_sequence e [] = e ∷ []
insert_by_sequence e (f ∷ fs) =
    if leb e.sequence f.sequence then e ∷ f ∷ fs else f ∷ insert_by_sequence e fs

abbrev pub sort_by_sequence : List AuditEvent → List AuditEvent
sort_by_sequence [] = []
sort_by_sequence (e ∷ es) = insert_by_sequence e (sort_by_sequence es)

-- The keyword arguments of `record_event`.
pub record NewEvent : Type 0 where
  pub tenant_id : String
  pub session_id : String
  pub event_type : AuditEventType
  pub payload : Fields
  pub actor : String
  pub ip : Option String
  pub user_agent : Option String
  pub document_hash : Option String

-- The event with the defaults of `record_event`.
abbrev pub system_event : String → String → AuditEventType → Fields → NewEvent
system_event tid sid type payload = record {
  tenant_id = tid;
  session_id = sid;
  event_type = type;
  payload = payload;
  actor = "SYSTEM";
  ip = none;
  user_agent = none;
  document_hash = none;
}

abbrev pub next_sequence : Option AuditEvent → ℕ
next_sequence none = 1
next_sequence (some last) = last.sequence + 1

abbrev pub hash_of : Option AuditEvent → Option String
hash_of none = none
hash_of (some last) = some last.event_hash

-- The row before its hash is computed.
abbrev pub draft : NewEvent → Option AuditEvent → ℕ → AuditEvent
draft n last now = record {
  tenant_id = n.tenant_id;
  session_id = n.session_id;
  sequence = next_sequence last;
  event_type = audit_event_type_str n.event_type;
  actor = n.actor;
  ip = n.ip;
  user_agent = n.user_agent;
  payload = n.payload;
  document_hash = n.document_hash;
  previous_event_hash = hash_of last;
  event_hash = "";
  created_at = now;
}

module _ (env : Env) where
  unfoldable pub sealed_event : NewEvent → Option AuditEvent → ℕ → AuditEvent
  sealed_event n last now =
      let e = draft n last now in record e { event_hash = compute_event_hash env e }

  unfoldable pub record_event : NewEvent → Exec AuditEvent
  unfolding sealed_event
  record_event n = do
    last ← gets (λ db. latest (events_of n.session_id db.events))
    now ← utcnow
    let event = sealed_event n last now
    modify (λ db. record db { events = db.events ++ event ∷ [] })
    pure event

  -- The row that `record_event` adds to a database.
  abbrev pub next_event : NewEvent → Db → AuditEvent
  next_event n db = sealed_event n (latest (events_of n.session_id db.events)) db.now

  unfoldable pub list_events : String → Exec (List AuditEvent)
  list_events sid = gets (λ db. sort_by_sequence (events_of sid db.events))

  unfoldable pub event_count : String → Exec ℕ
  event_count sid = gets (λ db. length (events_of sid db.events))

-- The result of `verify_chain`: the number of events, with the head hash or where it breaks.
pub data Verification : Type 0 where
  valid : ℕ → Option String → Verification
  broken : ℕ → ℕ → Verification

abbrev pub optional_eq : Option String → Option String → Bool
optional_eq none none = true
optional_eq (some a) (some b) = str_eq a b
optional_eq _ _ = false

module _ (env : Env) where
  abbrev pub is_broken : ℕ → Option String → AuditEvent → Bool
  is_broken index previous e =
      not (e.sequence == index)
      || (not (optional_eq e.previous_event_hash previous)
          || not (str_eq e.event_hash (compute_event_hash env e)))

  -- The loop of `verify_chain`; `total` is `len(events)`.
  pub verify_from : ℕ → ℕ → Option String → List AuditEvent → Verification
  verify_from total index previous [] = valid total previous
  verify_from total index previous (e ∷ es) =
      let rest = verify_from total (index + 1) (some e.event_hash) es in
      if is_broken index previous e then broken total e.sequence else rest

  unfoldable pub verify_chain : String → Exec Verification
  unfolding verify_from
  verify_chain sid = do
    events ← list_events env sid
    pure (verify_from (length events) 1 none events)
