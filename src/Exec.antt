-- ===== src/Exec.antt =====
-- The database and the process state as one record, and the operations on them: a state that
-- changes, and an exception that may be raised. What was written before a raise is still in the
-- record: whether a transaction is rolled back is the caller's decision.
pub mod Keeps
pub mod Transaction
pub mod Triple
use ekyc.Prelude.{ℕ, String, ◌+◌, Bool, Option, none, some, List, if◌then◌else◌, str_eq, first}
use ekyc.Enums.{SessionStatus}
use ekyc.Models.{
  Tenant, KycSession, AuditEvent, OtpChallenge, Artifact, Document, BiometricCheck, WebhookDelivery,
  SignedDocument,
}

-- A task handed to the queue (`task.delay`).
pub data Dispatch : Type 0 where
  process_document : ℕ → Dispatch
  process_selfie : String → ℕ → Dispatch
  deliver_webhook : ℕ → Dispatch

-- `_mem` and `_backend_down_until` of app/engines/ratelimit.py; an entry is a key, an expiry, a count.
pub record Limiter : Type 0 where
  pub mem : List (String × (ℕ × ℕ))
  pub down_until : ℕ

-- `now` is the instant of the operation; `serial` counts the random values and ids drawn.
pub record Db : Type 0 where
  pub now : ℕ
  pub serial : ℕ
  pub tenants : List Tenant
  pub sessions : List KycSession
  pub events : List AuditEvent
  pub challenges : List OtpChallenge
  pub artifacts : List Artifact
  pub documents : List Document
  pub biometrics : List BiometricCheck
  pub deliveries : List WebhookDelivery
  pub signed_documents : List SignedDocument
  pub limiter : Limiter
  pub queue : List Dispatch

pub data Exn : Type 0 where
  unknown_flow unknown_jurisdiction permission_error session_expired consent_required
        otp_rate_limited otp_delivery_error value_error no_result_found unknown_tsa unknown_signer
        vault_error unknown_vault key_error struct_error storage_error file_not_found provider_error
        http_error attribute_error unknown_provider provider_dependency runtime_error :
      Exn
  session_closed : SessionStatus → Exn
  otp_error : String → Exn
  insecure_config : List String → Exn
  http : ℕ → String → Exn

pub data Result (A : Type 0) : Type 0 where
  ok : A → Result A
  err : Exn → Result A

abbrev pub Exec : Type 0 → Type 0
Exec A = Db → Result A × Db

module _ {A : Type 0} where
  unfoldable pub pure : A → Exec A
  pure a db = (ok a, db)

  unfoldable pub raise : Exn → Exec A
  raise e db = (err e, db)

  unfoldable pub gets : (Db → A) → Exec A
  gets f db = (ok (f db), db)

  unfoldable pub lift : Result A → Exec A
  lift r db = (r, db)

unfoldable pub modify : (Db → Db) → Exec (Unit {0})
modify f db = (ok tt, f db)

module _ {A B : Type 0} where
  abbrev pub continue : Result A → (A → Exec B) → Exec B
  continue (ok a) f db = f a db
  continue (err e) f db = (err e, db)

  infixl 10 ◌>>=◌ ◌>>◌
  -- opening this opens `pure`, `raise`, `gets`, `lift` and `modify` too
  unfoldable pub ◌>>=◌ : Exec A → (A → Exec B) → Exec B
  unfolding pure raise gets lift modify
  ◌>>=◌ m f db = let (r, db') = m db in continue r f db'

  abbrev pub ◌>>◌ : Exec A → Exec B → Exec B
  m >> n = m >>= λ _. n

-- `if test: raise e`
abbrev pub raise_if : Bool → Exn → Exec (Unit {0})
raise_if test e = if test then raise e else pure tt

-- `o`, or raise where it is `None`
abbrev pub or_raise : {A : Type 0} → Option A → Exn → Exec A
or_raise none e = raise e
or_raise (some a) e = pure a

abbrev pub when : Bool → Exec (Unit {0}) → Exec (Unit {0})
when test m = if test then m else pure tt

unfoldable pub utcnow : Exec ℕ
unfolding gets
utcnow = gets (λ db. db.now)

-- A fresh random value or id: the number of the draw.
unfoldable pub draw : Exec ℕ
draw db = (ok db.serial, record db { serial = db.serial + 1 })

-- `with db_session() as db`: a commit, or a rollback of the tables and the raise. The random values
-- that were drawn and the limiter's memory are no rows.
abbrev pub settle : {A : Type 0} → Db → Result A × Db → Result A × Db
settle before (ok a, after) = (ok a, after)
settle before (err e, after) =
    (err e, record before { serial = after.serial; limiter = after.limiter })

unfoldable pub transaction : {A : Type 0} → Exec A → Exec A
transaction m db = settle db (m db)
