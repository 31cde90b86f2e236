-- ===== src/Mrz/Digits.antt =====
-- What a check digit detects.
use Prim.Native.Char.{Char, code}
use ekyc.Prelude.{
  ◌-◌, ◌≤◌, ◌<◌, ◌&&◌, ◌⊎◌, inl, inr, Bool, true, false, leb, ℕ, zero, suc, ◌+◌, ◌*◌, ◌%◌, ◌≡◌, ◌≢◌,
  refl, ap, List, [], ◌∷◌, ◌++◌, arith,
}
use ekyc.Mrz.Passport.{is_ascii_digit}
use ekyc.Mrz.{char_value, values, check_digit, weight, next_weight, weighted}

-- The place in the round behind some values.
abbrev pub turned : ℕ → List ℕ → ℕ
turned i [] = i
turned i (v ∷ vs) = turned (next_weight i) vs

weighted-append :
    (i : ℕ) (xs ys : List ℕ) → weighted i (xs ++ ys) ≡ weighted i xs + weighted (turned i xs) ys
weighted-append i [] ys = omega arith
weighted-append i (x ∷ xs) ys = omega (arith, weighted-append (next_weight i) xs ys)

differ :
    (i a b rest : ℕ) → a % 10 ≢ b % 10 → (a * weight i + rest) % 10 ≢ (b * weight i + rest) % 10
differ zero a b rest ne e = ne (omega arith)
differ (suc zero) a b rest ne e = ne (omega arith)
differ (suc (suc i)) a b rest ne e = ne (omega arith)

weighted-substitution :
    (i : ℕ) (front : List ℕ) (a b : ℕ) (back : List ℕ)
    → a % 10 ≢ b % 10
    → weighted i (front ++ a ∷ back) % 10 ≢ weighted i (front ++ b ∷ back) % 10
weighted-substitution i front a b back ne e =
    differ (turned i front) a b (weighted (next_weight (turned i front)) back + weighted i front) ne
      (omega (arith, e, weighted-append i front (a ∷ back), weighted-append i front (b ∷ back)))

values-append : (cs ds : List Char) → values (cs ++ ds) ≡ values cs ++ values ds
values-append [] ds = refl
values-append (c ∷ cs) ds = ap (λ vs. char_value (code c) ∷ vs) (values-append cs ds)

and_left : (a b : Bool) → (a && b) ≡ true → a ≡ true
and_left true b h = refl
and_left false b h = cc

and_right : (a b : Bool) → (a && b) ≡ true → b ≡ true
and_right true b h = h
and_right false b h = cc

-- A digit's value is the digit.
char_value-digit :
    (n : ℕ)
    → leb b'0' n ≡ true
    → leb n b'9' ≡ true
    → (char_value n ≡ n - b'0') × (n - b'0' < 10) × (b'0' ≤ n)
char_value-digit n low high = (ground arith, ground arith, ground arith)

digits-differ :
    (a b : Char)
    → is_ascii_digit a ≡ true
    → is_ascii_digit b ≡ true
    → code a ≢ code b
    → char_value (code a) % 10 ≢ char_value (code b) % 10
digits-differ a b is is' ne e =
    let (va, la, oa) = char_value-digit (code a) (and_left _ _ is) (and_right _ _ is) in
    let (vb, lb, ob) = char_value-digit (code b) (and_left _ _ is') (and_right _ _ is') in
    ne (omega (arith, e, va, la, oa, vb, lb, ob))

-- Two texts of ASCII characters that differ in one character have different check digits, if the two are
-- different digits, so that no reading of one digit for another goes undetected, or any characters whose values
-- differ modulo ten.
pub check_digit-substitution :
    (front : List Char) (a b : Char) (back : List Char)
    → ((is_ascii_digit a ≡ true) × (is_ascii_digit b ≡ true) × (code a ≢ code b))
      ⊎ (char_value (code a) % 10 ≢ char_value (code b) % 10)
    → check_digit (front ++ a ∷ back) ≢ check_digit (front ++ b ∷ back)
unfolding check_digit
check_digit-substitution front a b back other e =
    let ne : char_value (code a) % 10 ≢ char_value (code b) % 10 = elim other [
      | inl digits ↦ digits-differ a b digits.0 digits.1 digits.2
      | inr differ ↦ differ
    ] in
    weighted-substitution 0 (values front) (char_value (code a)) (char_value (code b)) (values back)
      ne (rw (values-append front (a ∷ back), values-append front (b ∷ back)) at e)
