-- ===== src/Exec/Triple.antt =====
-- What an operation leaves when it returns, with one rule for each way to build an operation. `E` is
-- what is claimed of a run that raises: `Unit` where nothing is, `⊥` where none raises.
use ekyc.Prelude.{◌≡◌, refl, Bool, true, false, Option, none, some, if◌then◌else◌}
use ekyc.Exec.{
  Db, Exn, Result, ok, err, Exec, pure, raise, gets, lift, raise_if, or_raise, ◌>>=◌, continue,
}
use ekyc.Exec.Keeps.{Keeps}

abbrev pub Holds : {A : Type 0} → Type 0 → (A → Db → Type 0) → Result A × Db → Type 0
Holds E Q (ok a, db) = Q a db
Holds E Q (err e, db) = E

pub record Triple {A : Type 0} (E : Type 0) (P : Db → Type 0) (m : Exec A) (Q : A → Db → Type 0)
    : Type 0 where
  pub at : (db : Db) → P db → Holds E Q (m db)

pub Holds-ok :
    {A : Type 0} (E : Type 0) (Q : A → Db → Type 0) (r : Result A × Db) {a : A}
    → Holds E Q r
    → r.0 ≡ ok a
    → Q a r.1
Holds-ok E Q (ok b, db) {a} h e = let same : b ≡ a = cc in rw (← same) h
Holds-ok E Q (err x, db) h e = cc

-- An operation that raises nowhere returns.
pub Holds-returns :
    {A : Type 0} (Q : A → Db → Type 0) (r : Result A × Db)
    → Holds ⊥ Q r
    → (a : A) × (r.0 ≡ ok a) × Q a r.1
Holds-returns Q (ok a, db) h = (a, refl, h)
Holds-returns Q (err x, db) h = absurd h

Holds-weaken :
    {A : Type 0} (E : Type 0) (Q R : A → Db → Type 0)
    → ((a : A) (db : Db) → Q a db → R a db)
    → (r : Result A × Db) → Holds E Q r
    → Holds E R r
Holds-weaken E Q R after (ok a, db) h = after a db h
Holds-weaken E Q R after (err e, db) h = h

module _ {A : Type 0} {E : Type 0} {P : Db → Type 0} where
  pub Triple-pure :
      {Q : A → Db → Type 0} (a : A) → ((db : Db) → P db → Q a db) → Triple E P (pure a) Q
  unfolding pure
  Triple-pure a implied = record { at = implied }

  -- An operation that only returns keeps what it keeps.
  pub Triple-gets : (f : Db → A) → Triple E P (gets f) (λ a db. P db × (a ≡ f db))
  unfolding gets
  Triple-gets f = record { at = λ db h. (h, refl) }

  pub Triple-lift :
      (r : Result A) → ((e : Exn) → r ≡ err e → E) → Triple E P (lift r) (λ a db. P db × (r ≡ ok a))
  unfolding lift
  Triple-lift (ok a) failed = record { at = λ db h. (h, refl) }
  Triple-lift (err e) failed = record { at = λ db h. failed e refl }

  pub Triple-or_raise :
      (o : Option A) (e : Exn)
      → (o ≡ none → E)
      → Triple E P (or_raise o e) (λ a db. P db × (o ≡ some a))
  unfolding pure raise
  Triple-or_raise none e failed = record { at = λ db h. failed refl }
  Triple-or_raise (some a) e failed = record { at = λ db h. (h, refl) }

  pub Triple-weaken :
      {P' : Db → Type 0} {Q R : A → Db → Type 0} (m : Exec A)
      → ((db : Db) → P' db → P db)
      → Triple E P m Q
      → ((a : A) (db : Db) → Q a db → R a db)
      → Triple E P' m R
  Triple-weaken {Q = Q} {R = R} m before t after = record {
    at = λ db h. Holds-weaken E Q R after (m db) (t.at db (before db h));
  }

module _ {A B : Type 0} {E : Type 0} {P : Db → Type 0} {Q : A → Db → Type 0}
    {R : B → Db → Type 0} where
  pub Triple-bind :
      (m : Exec A) (f : A → Exec B)
      → Triple E P m Q
      → ((a : A) → Triple E (Q a) (f a) R)
      → Triple E P (m >>= f) R
  unfolding ◌>>=◌
  Triple-bind m f tm tf = record { at = λ db h. go (m db) (tm.at db h) }
    where
      go : (r : Result A × Db) → Holds E Q r → Holds E R (let (a, db') = r in continue a f db')
      go (ok a, db) h = (tf a).at db h
      go (err e, db) h = h

-- A result with what is known of it.
pub Triple-obtain :
    {A B : Type 0} {E : Type 0} {P : Db → Type 0} {F : A → Type 0} {Q : A → Db → Type 0}
    {R : B → Db → Type 0} (m : Exec A) (f : A → Exec B)
    → Triple E P m (λ a db. Q a db × F a)
    → ((a : A) → F a → Triple E (Q a) (f a) R)
    → Triple E P (m >>= f) R
Triple-obtain m f tm tf = Triple-bind m f tm λ a. record { at = λ db h. (tf a h.1).at db h.0 }

pub Triple-raise_if :
    {E : Type 0} {P : Db → Type 0} (test : Bool) (e : Exn)
    → (test ≡ true → E)
    → Triple E P (raise_if test e) (λ u. P)
unfolding pure raise
Triple-raise_if true e failed = record { at = λ db h. failed refl }
Triple-raise_if false e failed = record { at = λ db h. h }

pub Triple-if :
    {A : Type 0} {E : Type 0} {P : Db → Type 0} {Q : A → Db → Type 0} (b : Bool) (m n : Exec A)
    → Triple E P m Q
    → Triple E P n Q
    → Triple E P (if b then m else n) Q
Triple-if true m n tm tn = tm
Triple-if false m n tm tn = tn

Holds-of :
    {A : Type 0} (E : Type 0) (Q : A → Db → Type 0) (r : Result A × Db) {a : A}
    → r.0 ≡ ok a
    → Q a r.1
    → Holds E Q r
Holds-of E Q (ok b, db) {a} e h = let same : b ≡ a = cc in rw same h
Holds-of E Q (err x, db) e h = cc

-- An operation that keeps `P` and always returns.
pub Triple-returns :
    {A : Type 0} {E : Type 0} {P : Db → Type 0} (m : Exec A)
    → Keeps P m
    → ((db : Db) → (a : A) × ((m db).0 ≡ ok a))
    → Triple E P m (λ a. P)
Triple-returns {E = E} {P = P} m kept returns = record {
  at = λ db h. let (a, e) = returns db in Holds-of E (λ a. P) (m db) e (kept.at db h);
}
