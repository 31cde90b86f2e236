-- ===== src/Tests/Histories.antt =====
-- Histories and audit chains at concrete inputs.
use ekyc.Prelude.{
  str_eq, sym, ap, ◌∙◌, Bool-cases, inl, inr, ◌+◌, ◌≤◌, String, ◌≡◌, ◌↔◌, ◌⊎◌, refl, Option, none,
  some, List, [], ◌∷◌, length,
}
use ekyc.Json.{get_field, Fields, field, Json, end}
use ekyc.Enums.{Step, CheckStatus}
use ekyc.Models.{AuditEvent}
use ekyc.Exec.{Db, ok}
use ekyc.Audit.{
  valid, verify_chain, events_of, sealed_event, sort_by_sequence, compute_event_hash, hashed_object,
  canonical_json, sha256_json, sha256_text, optional_str,
}
use ekyc.Audit.Chain.{Chain, head_hash}
use ekyc.Audit.Verify.{verify_chain-valid_iff}
use ekyc.Audit.Tamper.{Collision, ShowsText, SameTexts, Chain-tamper_evident}
use ekyc.Webhooks.Unique.{live_count}
use ekyc.Frame.History.{
  expire_session, Request, create, report, finalize, perform, Reachable, begin, call, wait,
  live_count-Reachable,
}
use ekyc.Frame.Terminal.Calls.{AllSpare}
use ekyc.Tests.Fixtures.{
  verified_session, shown, shown_previous, env, tenant, note, empty_db, open_session, db_at,
}

abbrev opened : Request
opened = create tenant "CITIZEN" none end (some "ci") none

abbrev later : Db → Db
later db = record db { now = db.now + 30 }

-- A session is created; half a minute later a check is reported and the session evaluated.
abbrev history_db : Db
history_db = perform env (finalize "0001") (
    perform env (report "0001" Step.otp CheckStatus.passed none)
      (later (perform env opened empty_db)))

history : Reachable env empty_db history_db
history =
    call (call (wait (call begin opened) 30) (report "0001" Step.otp CheckStatus.passed none))
      (finalize "0001")

live_count-Reachable_example : live_count "0001" "KYC_VERIFIED" history_db.deliveries ≤ 1
live_count-Reachable_example =
    live_count-Reachable env {start = empty_db} refl history "0001" "KYC_VERIFIED"

-- Two logs whose second events name different actors.
abbrev first_event : AuditEvent
first_event = sealed_event env (note "END_USER") none 10

abbrev pub chain_by : String → List AuditEvent
chain_by actor = first_event ∷ sealed_event env (note actor) (some first_event) 20 ∷ []

pub chain_by-Chain : (actor : String) → Chain env 1 none (chain_by actor)
unfolding sealed_event compute_event_hash
chain_by-Chain actor = (refl, refl, refl, (refl, refl, refl, tt))

some-injective : {A : Type 0} {a b : A} → some a ≡ some b → a ≡ b
some-injective e = cc

shown-injective : (a b : Option String) → shown (optional_str a) ≡ shown (optional_str b) → a ≡ b
shown-injective none none h = refl
shown-injective none (some b) h = cc
shown-injective (some a) none h = cc
shown-injective (some a) (some b) h = cc

shown_previous-get_field :
    (f : Fields) {v : Json}
    → get_field "previous_event_hash" f ≡ some v
    → shown_previous f ≡ shown v
shown_previous-get_field end h = cc
shown_previous-get_field (field k v rest) h = elim (Bool-cases (str_eq k "previous_event_hash")) [
  | inl is ↦ rw is (ap shown (some-injective (rw is at h)))
  | inr isnt ↦ rw isnt (shown_previous-get_field rest (rw isnt at h))
]

shows : ShowsText env "previous_event_hash"
unfolding canonical_json
shows f f' a b has has' same =
    shown-injective a b
      (sym (shown_previous-get_field f has) ∙ same ∙ shown_previous-get_field f' has')

Chain-tamper_evident_example : Collision env ⊎ SameTexts env (chain_by "SYSTEM") (chain_by "ADMIN")
unfolding sealed_event compute_event_hash hashed_object sha256_json sha256_text canonical_json
Chain-tamper_evident_example =
    Chain-tamper_evident env shows (chain_by "SYSTEM") (chain_by "ADMIN") (chain_by-Chain "SYSTEM")
      (chain_by-Chain "ADMIN") refl refl

abbrev log_db : Db
log_db = record (db_at 100 open_session) { events = chain_by "SYSTEM" }

verify_chain-valid_iff_example :
    let events = sort_by_sequence (events_of "s1" log_db.events) in
    (verify_chain env "s1" log_db ≡ (ok (valid 2 (head_hash env none events)), log_db)) ↔ (
      Chain env 1 none events
      × (2 ≡ length events)
      × (head_hash env none events ≡ head_hash env none events))
verify_chain-valid_iff_example =
    verify_chain-valid_iff env "s1" log_db 2
      (head_hash env none (sort_by_sequence (events_of "s1" log_db.events)))

-- A verified session is evaluated again, a check of it fails, and its time to live passes.
closed_history : Reachable env (db_at 100 verified_session) (
    perform env (expire_session "s1") (
      perform env
        (report "s1" Step.otp CheckStatus.failed none)
        (later (perform env (finalize "s1") (db_at 100 verified_session)))))
closed_history =
    call
      (call (wait (call begin (finalize "s1")) 30) (report "s1" Step.otp CheckStatus.failed none))
      (expire_session "s1")

closed_history-AllSpare : AllSpare env "s1" closed_history
unfolding AllSpare closed_history
closed_history-AllSpare = ((((tt, tt)), tt), tt)
