-- ===== src/Retention/Chains.antt =====
-- app/services/retention.py: the purge and the audit chains.
use ekyc.Prelude.{
  ap, sym, ◌∙◌, ◌++◌, map, take, select, append-nil, append_assoc, ℕ, ◌+◌, String, ◌≡◌, refl,
  Option, none, some, List, [], ◌∷◌, length, str_eq, Bool-cases, inl, inr,
}
use ekyc.Enums.{AuditEventType, audit_event_type_str}
use ekyc.Models.{AuditEvent, KycSession}
use ekyc.Env.{Env}
use ekyc.Exec.{Db, ok, modify, pure, utcnow, ◌>>=◌}
use ekyc.Exec.Transaction.{bind-ok}
use ekyc.Evidence.Trace.{Label, label}
use ekyc.Store.{
  save_session, modify_documents, modify_biometrics, modify_challenges, modify_artifacts,
}
use ekyc.Exec.Keeps.{Keeps}
use ekyc.Audit.{
  record_event, sealed_event, events_of, compute_event_hash, hashed_object, sha256_json,
  verify_chain, valid,
}
use ekyc.Audit.Chain.{Chain, head_hash, AllChained}
use ekyc.Audit.Verify.{verify_chain-AllChained}
use ekyc.Frame.PurgeOps.{purge_expired_sessions-Keeps}
use ekyc.Frame.Instances.{chained_tables}
use ekyc.Retention.{
  Report, added, is_eligible, eligible, purge_event, purge_session, purge_all, clear_origin,
  clear_origins, purge_expired_sessions,
}

-- What the event of a purge says.
abbrev pub purged_label : KycSession → Label
purged_label s = (s.id, audit_event_type_str AuditEventType.data_purged, none)

labels-append : (es fs : List AuditEvent) → map label (es ++ fs) ≡ map label es ++ map label fs
labels-append [] fs = refl
labels-append (e ∷ es) fs = ap (λ ls. label e ∷ ls) (labels-append es fs)

clear_origins-labels :
    (sid : String) (es : List AuditEvent) → map label (clear_origins sid es) ≡ map label es
clear_origins-labels sid [] = refl
clear_origins-labels sid (e ∷ es) = elim (Bool-cases (str_eq e.session_id sid)) [
  | inl own ↦ rw own (ap (λ ls. label e ∷ ls) (clear_origins-labels sid es))
  | inr other ↦ rw other (ap (λ ls. label e ∷ ls) (clear_origins-labels sid es))
]

module _ (env : Env) (sid : String) where
  -- Clearing ip and user agent changes none of the fields that the chain reads.
  clear_origin-fields :
      (e : AuditEvent)
      → ((clear_origin sid e).session_id ≡ e.session_id)
        × ((clear_origin sid e).sequence ≡ e.sequence)
        × ((clear_origin sid e).previous_event_hash ≡ e.previous_event_hash)
        × ((clear_origin sid e).event_hash ≡ e.event_hash)
        × (compute_event_hash env (clear_origin sid e) ≡ compute_event_hash env e)
  unfolding compute_event_hash hashed_object sha256_json
  clear_origin-fields e = elim (Bool-cases (str_eq e.session_id sid)) [
    | inl own ↦ rw own (refl, refl, refl, refl, refl)
    | inr other ↦ rw other (refl, refl, refl, refl, refl)
  ]

  clear_origins-Chain :
      (other : String) (n : ℕ) (previous : Option String) (es : List AuditEvent)
      → Chain env n previous (events_of other es)
      → Chain env n previous (events_of other (clear_origins sid es))
  clear_origins-Chain other n previous [] c = tt
  clear_origins-Chain other n previous (e ∷ es) c =
      let (id, number, previous_hash, hash, computed) = clear_origin-fields e in
      elim (Bool-cases (str_eq e.session_id other)) [
        | inl own ↦
            rw (id, own, number, previous_hash, hash, computed)
              (let (a, b, d, rest) : Chain env n previous (e ∷ events_of other es) = rw own at c in
                (a, b, d, clear_origins-Chain other (n + 1) (some e.event_hash) es rest))
        | inr foreign ↦ rw (id, foreign) (clear_origins-Chain other n previous es (rw foreign at c))
      ]

  clear-AllChained :
      Keeps (AllChained env) (modify (λ db. record db { events = clear_origins sid db.events }))
  unfolding modify
  clear-AllChained = record {
    at = λ db h other. clear_origins-Chain other 1 none db.events (h other);
  }

module _ (env : Env) where
  purge_expired_sessions-AllChained :
      (batch_size : ℕ) → Keeps (AllChained env) (purge_expired_sessions env batch_size)
  purge_expired_sessions-AllChained =
      purge_expired_sessions-Keeps env (chained_tables env) (clear-AllChained env)

  -- The purge of a session adds its event to the log, which keeps what its events say.
  purge_session-labels :
      (s : KycSession) (now : ℕ) (db : Db)
      → map label (purge_session env s now db).1.events ≡ map label db.events ++ purged_label s ∷ []
  unfolding purge_session purge_event record_event sealed_event save_session modify_documents
      modify_biometrics modify_challenges modify_artifacts modify utcnow pure ◌>>=◌
  purge_session-labels s now db = clear_origins-labels s.id _ ∙ labels-append db.events _

  purge_session-returns :
      (s : KycSession) (now : ℕ) (db : Db) → (r : Report) × ((purge_session env s now db).0 ≡ ok r)
  unfolding purge_session record_event save_session modify_documents modify_biometrics
      modify_challenges modify_artifacts modify utcnow pure ◌>>=◌
  purge_session-returns s now db = (_, refl)

  purge_all-returns :
      (now : ℕ) (sessions : List KycSession) (db : Db)
      → ((r : Report) × ((purge_all env now sessions db).0 ≡ ok r))
        × (map label (purge_all env now sessions db).1.events
            ≡ map label db.events ++ map purged_label sessions)
  unfolding purge_all pure
  purge_all-returns now [] db = ((_, refl), sym (append-nil _))
  purge_all-returns now (s ∷ rest) db =
      let (r, returned) = purge_session-returns s now db in
      let db1 = (purge_session env s now db).1 in
      let ((total, all), labels) = purge_all-returns now rest db1 in
      let step =
        bind-ok (purge_session env s now)
          (λ r'. purge_all env now rest >>= (λ total'. pure (added env total' r' s))) db r
          returned in
      let step2 =
        bind-ok (purge_all env now rest) (λ total'. pure (added env total' r s)) db1 total all in
      rw (step, step2, labels, purge_session-labels s now db)
        (
          (_, refl),
          append_assoc (map label db.events) (purged_label s ∷ []) (map purged_label rest),
        )

  purge_expired_sessions-labels :
      (batch_size : ℕ) (db : Db)
      → map label (purge_expired_sessions env batch_size db).1.events
        ≡ map label db.events
          ++ map purged_label (take batch_size (select (is_eligible db.now) db.sessions))
  unfolding purge_expired_sessions eligible utcnow pure ◌>>=◌
  purge_expired_sessions-labels batch_size db =
      let sessions = take batch_size (select (is_eligible db.now) db.sessions) in
      let ((total, all), labels) = purge_all-returns db.now sessions db in rw all labels

  -- A purge of any batch size adds to the log, for each session that it selects and in their order, the
  -- event that its data was purged; the events of before keep their places, their sessions, their types and their
  -- hashes of documents. Where every session's rows form a chain, they still do: `verify_chain` answers "valid" for
  -- every session, with the number of its events and the hash of the last one.
  pub verify_chain-purge_expired_sessions :
      (batch_size : ℕ) (db : Db)
      → AllChained env db
      → (sid : String)
      → let db' = (purge_expired_sessions env batch_size db).1 in
        (map label db'.events
          ≡ map label db.events
            ++ map purged_label (take batch_size (select (is_eligible db.now) db.sessions)))
        × (verify_chain env sid db' ≡ (
          ok (
              valid
                (length (events_of sid db'.events))
                (head_hash env none (events_of sid db'.events))),
          db',
        ))
  verify_chain-purge_expired_sessions batch_size db h sid = (
    purge_expired_sessions-labels batch_size db,
    verify_chain-AllChained env sid _ ((purge_expired_sessions-AllChained batch_size).at db h),
  )
