-- ===== src/Otp/Digits.antt =====
-- app/engines/otp.py: the number that a code shows.
use Prim.Native.Char.{Char, code}
use ekyc.Prelude.{
  ℕ, zero, suc, ◌+◌, ◌-◌, ◌*◌, ◌/◌, ◌%◌, ◌≤◌, ◌<◌, ◌≡◌, refl, ◌∙◌, ap, List, [], ◌∷◌, ◌++◌, length,
  ltb, Bool-cases, inl, inr, arith,
}
use ekyc.Otp.Text.{digit, decimal, replicate, code_chars}

-- The number that a text of digits shows, read from the left.
abbrev pub value : ℕ → List Char → ℕ
value acc [] = acc
value acc (c ∷ cs) = value (acc * 10 + (code c - 48)) cs

code-digit : (d : ℕ) → d < 10 → code (digit d) - 48 ≡ d
code-digit zero h = refl
code-digit (suc zero) h = refl
code-digit (suc (suc zero)) h = refl
code-digit (suc (suc (suc zero))) h = refl
code-digit (suc (suc (suc (suc zero)))) h = refl
code-digit (suc (suc (suc (suc (suc zero))))) h = refl
code-digit (suc (suc (suc (suc (suc (suc zero)))))) h = refl
code-digit (suc (suc (suc (suc (suc (suc (suc zero))))))) h = refl
code-digit (suc (suc (suc (suc (suc (suc (suc (suc zero)))))))) h = refl
code-digit (suc (suc (suc (suc (suc (suc (suc (suc (suc zero))))))))) h = refl
code-digit (suc (suc (suc (suc (suc (suc (suc (suc (suc (suc n)))))))))) h = absurd (omega arith)

value-decimal :
    (fuel n : ℕ) (rest : List Char) → n < fuel → value 0 (decimal fuel n rest) ≡ value n rest
unfolding decimal
value-decimal zero n rest h = absurd (omega arith)
value-decimal (suc fuel) n rest h = elim (Bool-cases (ltb n 10)) [
  | inl small ↦
      let shown : 0 * 10 + (code (digit n) - 48) ≡ n =
        omega (arith, code-digit n (let low : n < 10 = ground arith in low)) in
      rw small (ap (λ d. value d rest) shown)
  | inr large ↦
      let big : 10 ≤ n = ground arith in
      let digits : code (digit (n % 10)) - 48 ≡ n % 10 = code-digit (n % 10) (omega arith) in
      let whole : (n / 10) * 10 + (code (digit (n % 10)) - 48) ≡ n = omega (arith, digits) in
      rw large (
        value-decimal fuel (n / 10) (digit (n % 10) ∷ rest) (omega arith)
        ∙ ap (λ d. value d rest) whole)
]

value-replicate : (k : ℕ) (cs : List Char) → value 0 (replicate k "0" ++ cs) ≡ value 0 cs
value-replicate zero cs = refl
value-replicate (suc k) cs = value-replicate k cs

-- The text of any width for the number n shows n: no draw is lost or doubled.
pub value-code_chars : (w n : ℕ) → value 0 (code_chars w n) ≡ n
unfolding code_chars
value-code_chars w n =
    value-replicate (w - length (decimal (n + 1) n [])) (decimal (n + 1) n [])
    ∙ value-decimal (n + 1) n [] (omega arith)
