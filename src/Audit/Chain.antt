-- ===== src/Audit/Chain.antt =====
-- app/engines/audit.py: a chain is events numbered in order, each holding the hash of the one before
-- it and its own.
use ekyc.Prelude.{
  ℕ, ◌+◌, String, ◌≡◌, refl, sym, Option, none, some, List, [], ◌∷◌, ◌++◌, length, arith, str_eq,
  eq_refl, eq_iff, select-append, Bool-cases, inl, inr, false, append-nil,
}
use mathlib.Core.Path.{subst}
use ekyc.Models.{AuditEvent}
use ekyc.Env.{Env}
use ekyc.Exec.{Db, utcnow, ◌>>=◌}
use ekyc.Exec.Keeps.{Keeps}
use ekyc.Audit.{
  NewEvent, compute_event_hash, events_of, latest, sort_by_sequence, sealed_event, record_event,
  next_event, hash_of, next_sequence,
}

module _ (env : Env) where
  abbrev pub Chain : ℕ → Option String → List AuditEvent → Type 0
  Chain n previous [] = Unit
  Chain n previous (e ∷ es) =
      (e.sequence ≡ n)
      × (e.previous_event_hash ≡ previous)
      × (e.event_hash ≡ compute_event_hash env e)
      × Chain (n + 1) (some e.event_hash) es

  -- The hash at the end of a chain that starts after `previous`.
  abbrev pub head_hash : Option String → List AuditEvent → Option String
  head_hash previous [] = previous
  head_hash previous (e ∷ es) = head_hash (some e.event_hash) es

  pub Chain-snoc :
      (n : ℕ) (previous : Option String) (es : List AuditEvent) (e : AuditEvent)
      → Chain n previous es
      → e.sequence ≡ n + length es
      → e.previous_event_hash ≡ head_hash previous es
      → e.event_hash ≡ compute_event_hash env e
      → Chain n previous (es ++ e ∷ [])
  Chain-snoc n previous [] e c s p h = (omega arith, p, h, tt)
  Chain-snoc n previous (x ∷ es) e c s p h =
      (c.0, c.1, c.2, Chain-snoc (n + 1) (some x.event_hash) es e c.3 (omega arith) p h)

  -- The last row of a chain has the greatest sequence number, and the head hash.
  latest-Chain :
      (n : ℕ) (previous : Option String) (e : AuditEvent) (es : List AuditEvent)
      → Chain n previous (e ∷ es)
      → (next_sequence (latest (e ∷ es)) ≡ n + length (e ∷ es))
        × (hash_of (latest (e ∷ es)) ≡ head_hash previous (e ∷ es))
  latest-Chain n previous e [] c = (omega arith, refl)
  latest-Chain n previous e (f ∷ fs) c =
      ground (arith, latest-Chain (n + 1) (some e.event_hash) f fs c.3)

  pub sort_by_sequence-Chain :
      (n : ℕ) (previous : Option String) (es : List AuditEvent)
      → Chain n previous es
      → sort_by_sequence es ≡ es
  sort_by_sequence-Chain n previous [] c = refl
  sort_by_sequence-Chain n previous (e ∷ []) c = refl
  sort_by_sequence-Chain n previous (e ∷ f ∷ fs) c =
      rw (sort_by_sequence-Chain (n + 1) (some e.event_hash) (f ∷ fs) c.3) (ground arith)

  -- Every session's rows form a chain from the first event on.
  abbrev pub AllChained : Db → Type 0
  AllChained db = (sid : String) → Chain 1 none (events_of sid db.events)

  -- The next event of a session extends its chain.
  sealed_event-Chain :
      (new : NewEvent) (now : ℕ) (es : List AuditEvent)
      → Chain 1 none es
      → Chain 1 none (es ++ sealed_event env new (latest es) now ∷ [])
  unfolding sealed_event compute_event_hash
  sealed_event-Chain new now [] c = (omega arith, refl, refl, tt)
  sealed_event-Chain new now (e ∷ es) c =
      let (number, hash) = latest-Chain 1 none e es c in
      Chain-snoc 1 none (e ∷ es) (sealed_event env new (latest (e ∷ es)) now) c number hash refl

  events_of-snoc_self :
      (sid : String) (es : List AuditEvent) (e : AuditEvent)
      → e.session_id ≡ sid
      → events_of sid (es ++ e ∷ []) ≡ events_of sid es ++ e ∷ []
  events_of-snoc_self sid es e h = rw (select-append, h, eq_refl)

  events_of-snoc_other :
      (sid : String) (es : List AuditEvent) (e : AuditEvent)
      → str_eq e.session_id sid ≡ false
      → events_of sid (es ++ e ∷ []) ≡ events_of sid es
  events_of-snoc_other sid es e h = rw (select-append, h) (append-nil _)

  -- Recording an event keeps every session's chain.
  pub record_event-AllChained : (new : NewEvent) → Keeps AllChained (record_event env new)
  unfolding record_event ◌>>=◌ utcnow
  record_event-AllChained new = record {
    at = λ db h sid. elim (Bool-cases (str_eq new.session_id sid)) [
      | inl same ↦
          rw
            (events_of-snoc_self sid db.events (next_event env new db)
              ((eq_iff new.session_id sid).0 same))
            (subst
              (λ t. Chain 1 none (
                events_of sid db.events
                ++ sealed_event env new (latest (events_of t db.events)) db.now ∷ []))
              (sym ((eq_iff new.session_id sid).0 same))
              (sealed_event-Chain new db.now (events_of sid db.events) (h sid)))
      | inr other ↦ rw (events_of-snoc_other sid db.events (next_event env new db) other) (h sid)
    ];
  }
