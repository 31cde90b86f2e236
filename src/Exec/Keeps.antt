-- ===== src/Exec/Keeps.antt =====
-- Invariants of operations, with one rule for each way to build an operation.
use ekyc.Prelude.{◌≡◌, refl, Option, none, some, ℕ, Bool, true, false, if◌then◌else◌}
use ekyc.Exec.{
  Db, Exn, Result, ok, err, Exec, pure, raise, gets, lift, transaction, settle, or_raise, Limiter,
  ◌>>=◌, continue,
}

-- `m` keeps `P`, whether it returns or raises.
pub record Keeps {A : Type 0} (P : Db → Type 0) (m : Exec A) : Type 0 where
  pub at : (db : Db) → P db → P (m db).1

module _ {A : Type 0} {P : Db → Type 0} where
  pub Keeps-pure : (a : A) → Keeps P (pure a)
  unfolding pure
  Keeps-pure a = record { at = λ db h. h }

  pub Keeps-raise : (e : Exn) → Keeps P (raise {A = A} e)
  unfolding raise
  Keeps-raise e = record { at = λ db h. h }

  pub Keeps-gets : (f : Db → A) → Keeps P (gets f)
  unfolding gets
  Keeps-gets f = record { at = λ db h. h }

  pub Keeps-lift : (r : Result A) → Keeps P (lift r)
  unfolding lift
  Keeps-lift r = record { at = λ db h. h }

  pub Keeps-if : (b : Bool) (m n : Exec A) → Keeps P m → Keeps P n → Keeps P (if b then m else n)
  Keeps-if true m n km kn = km
  Keeps-if false m n km kn = kn

module _ {A B : Type 0} {P : Db → Type 0} where
  Keeps-continue :
      (r : Result A) (f : A → Exec B) → ((a : A) → Keeps P (f a)) → Keeps P (continue r f)
  Keeps-continue (ok a) f kf = record { at = λ db h. (kf a).at db h }
  Keeps-continue (err e) f kf = record { at = λ db h. h }

  pub Keeps-bind :
      (m : Exec A) (f : A → Exec B) → Keeps P m → ((a : A) → Keeps P (f a)) → Keeps P (m >>= f)
  unfolding ◌>>=◌
  Keeps-bind m f km kf = record {
    at = λ db h. let (r, db') = m db in (Keeps-continue r f kf).at db' (km.at db h);
  }

module _ {A B : Type 0} {P : Db → Type 0} {F : A → Type 0} where
  Keeps-known :
      (r : Result A) (f : A → Exec B)
      → ((a : A) → r ≡ ok a → F a)
      → ((a : A) → F a → Keeps P (f a))
      → Keeps P (continue r f)
  Keeps-known (ok a) f known kf = record { at = λ db h. (kf a (known a refl)).at db h }
  Keeps-known (err e) f known kf = record { at = λ db h. h }

  -- What follows may count on what is known of the result.
  pub Keeps-obtain :
      (m : Exec A) (f : A → Exec B)
      → Keeps P m
      → ((db : Db) (a : A) → (m db).0 ≡ ok a → F a)
      → ((a : A) → F a → Keeps P (f a))
      → Keeps P (m >>= f)
  unfolding ◌>>=◌
  Keeps-obtain m f km known kf = record {
    at = λ db h. (Keeps-known (m db).0 f (known db) kf).at (m db).1 (km.at db h);
  }

module _ {A : Type 0} where
  pub or_raise-some :
      (o : Option A) (e : Exn) (db : Db) (a : A) → (or_raise o e db).0 ≡ ok a → o ≡ some a
  unfolding pure raise
  or_raise-some none e db a h = cc
  or_raise-some (some b) e db a h = cc

  pub lift-ok : (r : Result A) (db : Db) (a : A) → (lift r db).0 ≡ ok a → r ≡ ok a
  unfolding lift
  lift-ok r db a h = h

-- A rollback keeps the random values that were drawn and the limiter's memory.
abbrev pub Rollback : (Db → Type 0) → Type 0
Rollback P = (db : Db) (n : ℕ) (l : Limiter) → P db → P (record db { serial = n; limiter = l })

module _ {A : Type 0} {P : Db → Type 0} where
  settled :
      Rollback P → (db : Db) (r : Result A) (db' : Db) → P db → P db' → P (settle db (r, db')).1
  settled rollback db (ok a) db' h h' = h'
  settled rollback db (err e) db' h h' = rollback db db'.serial db'.limiter h

  pub Keeps-transaction : Rollback P → (m : Exec A) → Keeps P m → Keeps P (transaction m)
  unfolding transaction
  Keeps-transaction rollback m km = record {
    at = λ db h. let (r, db') = m db in settled rollback db r db' h (km.at db h);
  }

pub ruleset keeps_rules = (Keeps-pure, Keeps-raise, Keeps-gets, Keeps-lift, Keeps-if, Keeps-bind)
