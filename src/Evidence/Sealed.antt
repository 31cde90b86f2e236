-- ===== src/Evidence/Sealed.antt =====
-- app/services/evidence.py, `seal_document`: every document that is returned is sealed, and when one is.
use ekyc.Prelude.{String, Bool, ◌≡◌, refl, sym, append-nil, Option, []}
use ekyc.Models.{KycSession, SignedDocument}
use ekyc.Env.{Env, Bytes}
use ekyc.Exec.{Db, ok}
use ekyc.Exec.Triple.{Holds-ok, Holds-returns}
use ekyc.Evidence.{seal_document, tsa_policy_of}
use ekyc.Evidence.Trace.{Added, Failing}
use ekyc.Evidence.Sealing.{IsSealed, seal_document-Triple}

Added-start : (db : Db) → Added db [] [] db
Added-start db = record {
  events = sym (append-nil db.events);
  artifacts = sym (append-nil db.artifacts);
  signed = refl;
  sessions = refl;
  others = refl;
}

-- Nothing is claimed of a run that raises.
no_claim :
    (env : Env) (s : KycSession) (pdf : Bytes) (policy : String) → Failing Unit env s pdf policy
no_claim env s pdf policy = record {
  vault = λ e h. tt;
  version = λ e h. tt;
  key = λ e h. tt;
  put = λ n backend key blob h. tt;
  hex = λ plain h. tt;
  signer = λ e h. tt;
  authority = λ e h. tt;
  embedded = λ entries h. tt;
}

module _ (env : Env) (s : KycSession) (pdf : Bytes) (reference : Option String) (filename : String)
    (qualified : Option Bool) (db : Db) where
  -- When `seal_document` returns a row, the tables are those of before with exactly this added: five
  -- events of the session in the order generated, hashed, signed, timestamped, archived, the first four
  -- with the SHA-256 digest of the document and the last with that of the sealed file; the artifacts of
  -- the document, of the token and of the sealed file, each with the digest of its bytes; and the row,
  -- which names the session, the reference, the digest and the three artifacts and has the platform's
  -- signature over the digest. The sealed file is the document with the proof elements of this row. No
  -- other table, counter or task is written.
  pub seal_document-IsSealed :
      {d : SignedDocument}
      → (seal_document env s pdf reference filename qualified db).0 ≡ ok d
      → IsSealed env s pdf reference db d
          (seal_document env s pdf reference filename qualified db).1
  seal_document-IsSealed = Holds-ok _ _ _ (
      (seal_document-Triple env Unit s pdf qualified (no_claim env s pdf _) db reference
          filename).at
        db (Added-start db))

  -- If the vault of the session resolves and takes every blob, the data key is there, digests are
  -- hexadecimal, the PDF library writes metadata into this file, and the signer and the timestamp policy are known, then
  -- `seal_document` returns a row that is sealed, whatever the timestamp authority answers.
  pub seal_document-returns :
      Failing ⊥ env s pdf (tsa_policy_of s qualified)
      → (d : SignedDocument) × ((seal_document env s pdf reference filename qualified db).0 ≡ ok d)
        × IsSealed env s pdf reference db d
            (seal_document env s pdf reference filename qualified db).1
  seal_document-returns never = Holds-returns _ _ (
      (seal_document-Triple env ⊥ s pdf qualified never db reference filename).at db
        (Added-start db))
