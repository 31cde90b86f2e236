-- ===== src/Store.antt =====
-- The `kyc_sessions` table: reading a row, writing it back, and the row lock of `lock_session`
-- (app/services/kyc.py).
use ekyc.Prelude.{
  ℕ, String, ◌≡◌, refl, Option, none, some, List, [], ◌∷◌, ◌++◌, arith, if◌then◌else◌, str_eq,
  eq_iff, eq_refl,
}
use ekyc.Models.{
  KycSession, Tenant, OtpChallenge, Document, Artifact, BiometricCheck, SignedDocument,
}
use ekyc.Exec.{
  Db, Limiter, Dispatch, no_result_found, ok, Exec, gets, modify, or_raise, utcnow, ◌>>=◌, ◌>>◌,
}

abbrev pub find_session : String → List KycSession → Option KycSession
find_session id [] = none
find_session id (s ∷ rest) = if str_eq s.id id then some s else find_session id rest

abbrev pub find_tenant : String → List Tenant → Option Tenant
find_tenant id [] = none
find_tenant id (t ∷ rest) = if str_eq t.id id then some t else find_tenant id rest

-- `UPDATE … SET updated_at WHERE id`
abbrev pub touch : String → ℕ → List KycSession → List KycSession
touch id now [] = []
touch id now (s ∷ rest) =
    (if str_eq s.id id then record s { updated_at = now } else s) ∷ touch id now rest

-- The row of `s` as the mutated object leaves it at the next flush.
abbrev pub replace : KycSession → List KycSession → List KycSession
replace s [] = []
replace s (r ∷ rest) = (if str_eq r.id s.id then s else r) ∷ replace s rest

-- `session.… = …; db.flush()`
unfoldable pub save_session : KycSession → Exec (Unit {0})
save_session s = modify (λ db. record db { sessions = replace s db.sessions })

unfoldable pub touch_session : String → ℕ → Exec (Unit {0})
touch_session id now = modify (λ db. record db { sessions = touch id now db.sessions })

-- `db.add(session); db.flush()`; a row with the id of an older one is not found by it.
unfoldable pub insert_session : KycSession → Exec (Unit {0})
insert_session s = modify (λ db. record db { sessions = db.sessions ++ s ∷ [] })

-- Writes to the other tables, to the limiter's memory and to the task queue.
unfoldable pub modify_challenges : (List OtpChallenge → List OtpChallenge) → Exec (Unit {0})
modify_challenges f = modify (λ db. record db { challenges = f db.challenges })

unfoldable pub modify_documents : (List Document → List Document) → Exec (Unit {0})
modify_documents f = modify (λ db. record db { documents = f db.documents })

unfoldable pub modify_artifacts : (List Artifact → List Artifact) → Exec (Unit {0})
modify_artifacts f = modify (λ db. record db { artifacts = f db.artifacts })

unfoldable pub modify_biometrics : (List BiometricCheck → List BiometricCheck) → Exec (Unit {0})
modify_biometrics f = modify (λ db. record db { biometrics = f db.biometrics })

unfoldable pub modify_limiter : (Limiter → Limiter) → Exec (Unit {0})
modify_limiter f = modify (λ db. record db { limiter = f db.limiter })

-- `db.add(signed); db.flush()`
unfoldable pub insert_signed : SignedDocument → Exec (Unit {0})
insert_signed d = modify (λ db. record db { signed_documents = db.signed_documents ++ d ∷ [] })

unfoldable pub push_task : Dispatch → Exec (Unit {0})
push_task d = modify (λ db. record db { queue = db.queue ++ d ∷ [] })

-- `db.get(KycSession, id)`, where the caller holds the row.
unfoldable pub load_session : String → Exec KycSession
load_session id = do
  found ← gets (λ db. find_session id db.sessions)
  or_raise found no_result_found

unfoldable pub lock_session : String → Exec KycSession
lock_session id = do now ← utcnow; touch_session id now; load_session id

-- The row of `id` after `f`, where there is one.
abbrev pub touched : ℕ → Option KycSession → Option KycSession
touched now none = none
touched now (some s) = some (record s { updated_at = now })

pub find_session-touch :
    (id j : String) (now : ℕ) (rows : List KycSession)
    → find_session j (touch id now rows)
      ≡ (if str_eq id j then touched now (find_session j rows) else find_session j rows)
find_session-touch id j now [] = ground arith
find_session-touch id j now (s ∷ rest) =
    ground (arith, find_session-touch id j now rest, eq_iff s.id id, eq_iff s.id j, eq_iff id j)

abbrev pub replaced : KycSession → Option KycSession → Option KycSession
replaced s none = none
replaced s (some old) = some s

pub find_session-replace :
    (j : String) (s : KycSession) (rows : List KycSession)
    → find_session j (replace s rows)
      ≡ (if str_eq s.id j then replaced s (find_session j rows) else find_session j rows)
find_session-replace j s [] = ground arith
find_session-replace j s (r ∷ rest) =
    ground (arith, find_session-replace j s rest, eq_iff r.id s.id, eq_iff r.id j, eq_iff s.id j)

-- A row that is found has the id it was looked up by.
pub find_session-id :
    (id : String) (s : KycSession) (rows : List KycSession)
    → find_session id rows ≡ some s
    → s.id ≡ id
find_session-id id s [] h = cc
find_session-id id s (r ∷ rest) h = ground (arith, find_session-id id s rest, eq_iff r.id id)

-- The lock reads the row of the session, with its time of update set.
pub lock_session-found :
    (id : String) (db : Db) {s : KycSession}
    → find_session id db.sessions ≡ some s
    → lock_session id db ≡ (
      ok (record s { updated_at = db.now }),
      record db { sessions = touch id db.now db.sessions },
    )
unfolding lock_session ◌>>=◌ utcnow touch_session load_session
lock_session-found id db h = rw (find_session-touch id id db.now db.sessions, eq_refl, h)

-- A row that is added is found where no older row has its id, and hides none.
pub find_session-append :
    (id : String) (s : KycSession) (rows : List KycSession)
    → find_session id (rows ++ s ∷ []) ≡ elim (find_session id rows) [
      | none ↦ if str_eq s.id id then some s else none
      | some old ↦ some old
    ]
find_session-append id s [] = refl
find_session-append id s (r ∷ rest) = ground (arith, find_session-append id s rest)
