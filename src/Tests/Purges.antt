-- ===== src/Tests/Purges.antt =====
-- The purge of a session whose retention period is over.
use ekyc.Prelude.{map, ◌++◌, ◌∷◌, ◌≡◌, none, some, [], length, str_eq, Bool-cases, inl, inr}
use ekyc.Enums.{ArtifactKind}
use ekyc.Models.{Artifact}
use ekyc.Env.{Env}
use ekyc.Exec.{Db, ok}
use ekyc.Audit.{events_of, verify_chain, valid, sealed_event}
use ekyc.Audit.Chain.{AllChained, head_hash}
use ekyc.Evidence.Trace.{label}
use ekyc.Retention.{purge_expired_sessions}
use ekyc.Retention.Chains.{verify_chain-purge_expired_sessions}
use ekyc.Tests.Fixtures.{env, verified_session, db_at}
use ekyc.Tests.Histories.{chain_by, chain_by-Chain}

abbrev old_db : Db
old_db = record (db_at 400000000 verified_session) { events = chain_by "SYSTEM" }

old_db-AllChained : AllChained env old_db
unfolding sealed_event
old_db-AllChained sid = elim (Bool-cases (str_eq "s1" sid)) [
  | inl own ↦ rw own (chain_by-Chain "SYSTEM")
  | inr other ↦ rw other tt
]

verify_chain-purge_expired_sessions_example :
    let db' = (purge_expired_sessions env 200 old_db).1 in
    (map label db'.events ≡ map label (chain_by "SYSTEM") ++ ("s1", "DATA_PURGED", none) ∷ [])
    × (verify_chain env "s1" db' ≡ (
      ok (
          valid
            (length (events_of "s1" db'.events))
            (head_hash env none (events_of "s1" db'.events))),
      db',
    ))
verify_chain-purge_expired_sessions_example =
    verify_chain-purge_expired_sessions env 200 old_db old_db-AllChained "s1"

-- A vault that is out of reach.
abbrev cut_off : Env
cut_off = record env { vault_delete = λ profile key. none }

abbrev image : Artifact
image = record {
  id = 1;
  tenant_id = "t1";
  session_id = some "s1";
  kind = ArtifactKind.document_image;
  storage_key = "k1";
  vault_profile = "default";
  content_type = "image/jpeg";
  size_bytes = 10;
  sha256 = "#";
  created_at = 0;
  purged_at = none;
}
