-- ===== src/Audit/Verify.antt =====
-- app/engines/audit.py: `verify_chain` against the definition of a chain.
use ekyc.Prelude.{
  ℕ, ◌+◌, String, ◌≡◌, refl, ◌↔◌, inl, inr, Option, none, some, List, [], ◌∷◌, arith, length, true,
  false, Bool-cases, eq_iff,
}
use ekyc.Models.{AuditEvent}
use ekyc.Env.{Env}
use ekyc.Exec.{Db, ok, pure, ◌>>=◌}
use ekyc.Audit.{
  valid, is_broken, optional_eq, verify_from, verify_chain, list_events, compute_event_hash,
  events_of, sort_by_sequence,
}
use ekyc.Audit.Chain.{Chain, head_hash, AllChained, sort_by_sequence-Chain}

optional_eq_sound : (a b : Option String) → optional_eq a b ≡ true → a ≡ b
optional_eq_sound none none h = refl
optional_eq_sound none (some b) h = cc
optional_eq_sound (some a) none h = cc
optional_eq_sound (some a) (some b) h = ground (arith, eq_iff a b)

optional_eq_refl : (a : Option String) → optional_eq a a ≡ true
optional_eq_refl none = refl
optional_eq_refl (some a) = (eq_iff a a).1 refl

module _ (env : Env) where
  -- One row passes the three tests exactly when it continues the chain.
  is_broken_lem :
      (n : ℕ) (previous : Option String) (e : AuditEvent)
      → is_broken env n previous e ≡ false
      → (e.sequence ≡ n)
        × (e.previous_event_hash ≡ previous)
        × (e.event_hash ≡ compute_event_hash env e)
  is_broken_lem n previous e h = ground (
    arith,
    optional_eq_sound e.previous_event_hash previous,
    eq_iff e.event_hash (compute_event_hash env e),
  )

  not_broken :
      (n : ℕ) (previous : Option String) (e : AuditEvent)
      → e.sequence ≡ n
      → e.previous_event_hash ≡ previous
      → e.event_hash ≡ compute_event_hash env e
      → is_broken env n previous e ≡ false
  not_broken n previous e s p h =
      ground (arith, optional_eq_refl previous, eq_iff e.event_hash (compute_event_hash env e))

  verify_from-Chain :
      (total n : ℕ) (previous : Option String) (es : List AuditEvent)
      → Chain env n previous es
      → verify_from env total n previous es ≡ valid total (head_hash env previous es)
  unfolding verify_from
  verify_from-Chain total n previous [] c = refl
  verify_from-Chain total n previous (e ∷ es) c =
      rw (not_broken n previous e c.0 c.1 c.2)
        (verify_from-Chain total (n + 1) (some e.event_hash) es c.3)

  Chain-verify_from :
      (total n : ℕ) (previous : Option String) {k : ℕ} {head : Option String} (es : List AuditEvent)
      → verify_from env total n previous es ≡ valid k head
      → Chain env n previous es × (k ≡ total) × (head ≡ head_hash env previous es)
  unfolding verify_from
  Chain-verify_from total n previous [] h = (tt, cc, cc)
  Chain-verify_from total n previous (e ∷ es) h = elim (Bool-cases (is_broken env n previous e)) [
    | inl bad ↦ cc (rw bad at h)
    | inr good ↦
        let (c, k, e') = Chain-verify_from total (n + 1) (some e.event_hash) es (rw good at h) in
        let (a, b, d) = is_broken_lem n previous e good in ((a, b, d, c), k, e')
  ]

  -- `verify_chain` answers "valid", with the number of events and the head hash, exactly when the
  -- session's rows in the order of their sequence numbers are a chain: numbered from 1 without a
  -- gap, each with the hash of the row before it and its own recomputed hash.
  pub verify_chain-valid_iff :
      (sid : String) (db : Db) (n : ℕ) (head : Option String)
      → let events = sort_by_sequence (events_of sid db.events) in
        (verify_chain env sid db ≡ (ok (valid n head), db))
        ↔ (Chain env 1 none events × (n ≡ length events) × (head ≡ head_hash env none events))
  unfolding verify_chain list_events pure ◌>>=◌
  verify_chain-valid_iff sid db n head = (
    λ h.
        Chain-verify_from (length (sort_by_sequence (events_of sid db.events))) 1 none
          (sort_by_sequence (events_of sid db.events)) (cc h),
    λ h. rw (
      verify_from-Chain (length (sort_by_sequence (events_of sid db.events))) 1 none
          (sort_by_sequence (events_of sid db.events)) h.0,
      h.1,
      h.2,
    ),
  )

  -- Where every session's rows were written by `record_event`, every session verifies.
  pub verify_chain-AllChained :
      (sid : String) (db : Db)
      → AllChained env db
      → verify_chain env sid db ≡ (
        ok (
            valid
              (length (events_of sid db.events))
              (head_hash env none (events_of sid db.events))),
        db,
      )
  unfolding verify_chain list_events pure ◌>>=◌
  verify_chain-AllChained sid db h =
      rw (sort_by_sequence-Chain env 1 none (events_of sid db.events) (h sid)) (
        rw (
          verify_from-Chain (length (events_of sid db.events)) 1 none (events_of sid db.events)
            (h sid)))
