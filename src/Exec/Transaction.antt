-- ===== src/Exec/Transaction.antt =====
-- Transactions that return and that raise.
use ekyc.Prelude.{◌⊎◌, inl, inr, ◌≡◌, refl}
use ekyc.Exec.{Db, Exn, Result, ok, err, Exec, settle, transaction, continue, ◌>>=◌}

pub Result-cases : {A : Type 0} (r : Result A) → ((a : A) × (r ≡ ok a)) ⊎ ((e : Exn) × (r ≡ err e))
Result-cases (ok a) = inl (a, refl)
Result-cases (err e) = inr (e, refl)

module _ {A : Type 0} where
  pub settle-ok : (before : Db) (r : Result A × Db) (a : A) → r.0 ≡ ok a → settle before r ≡ r
  settle-ok before (ok b, db) a h = refl
  settle-ok before (err e, db) a h = cc

  -- What a failed transaction leaves: the draws and the limiter of the attempt, the rows of before.
  pub settle-err :
      (before : Db) (r : Result A × Db) (e : Exn)
      → r.0 ≡ err e
      → settle before r ≡ (err e, record before { serial = r.1.serial; limiter = r.1.limiter })
  settle-err before (ok b, db) e h = cc
  settle-err before (err x, db) e h = rw h refl

module _ {A : Type 0} where
  settle-returned :
      (before : Db) (r : Result A × Db) {a : A} → (settle before r).0 ≡ ok a → settle before r ≡ r
  settle-returned before (ok b, db) e = refl
  settle-returned before (err x, db) e = cc

  -- A transaction that returned is its operation.
  pub transaction-returned :
      (m : Exec A) (db : Db) {a : A} → (transaction m db).0 ≡ ok a → transaction m db ≡ m db
  unfolding transaction
  transaction-returned m db e = settle-returned db (m db) e

-- What follows an operation that returned.
pub bind-ok :
    {A B : Type 0} (m : Exec A) (f : A → Exec B) (db : Db) (a : A)
    → (m db).0 ≡ ok a
    → (m >>= f) db ≡ f a (m db).1
unfolding ◌>>=◌
bind-ok m f db a e = rw e refl

module _ {A B : Type 0} where
  continue-returned :
      (r : Result A) (f : A → Exec B) (db : Db) {b : B}
      → (continue r f db).0 ≡ ok b
      → (a : A) × (r ≡ ok a)
  continue-returned (ok a) f db e = (a, refl)
  continue-returned (err x) f db e = cc

  -- An operation that returned has a first part that returned.
  pub bind-returned :
      (m : Exec A) (f : A → Exec B) (db : Db) {b : B}
      → ((m >>= f) db).0 ≡ ok b
      → (a : A) × ((m db).0 ≡ ok a) × ((m >>= f) db ≡ f a (m db).1)
  unfolding ◌>>=◌
  bind-returned m f db e =
      let (a, done) = continue-returned (m db).0 f (m db).1 e in (a, done, rw done refl)
