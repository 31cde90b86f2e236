-- ===== src/Otp/Text.antt =====
-- app/engines/otp.py: the texts of codes and masked destinations, as lists of characters.
use Prim.Native.Char.{Char, code}
use Prim.Native.String.{String}
use native.Mathlib.Nat.{pow-suc}
use ekyc.Prelude.{
  ℕ, zero, suc, ◌+◌, ◌-◌, ◌/◌, ◌%◌, ◌^◌, ◌≤◌, ◌<◌, ◌≡◌, refl, true, Option, none, some, List, [],
  ◌∷◌, ◌++◌, length, take, drop, length-append, ltb, ◌==◌, if◌then◌else◌, arith, Bool-cases, inl,
  inr,
}

abbrev pub chars : String → List Char
chars String.[] = []
chars (String.◌∷◌ c s) = c ∷ chars s

abbrev pub text : List Char → String
text [] = ""
text (c ∷ cs) = String.◌∷◌ c (text cs)

abbrev pub replicate : ℕ → Char → List Char
replicate zero c = []
replicate (suc n) c = c ∷ replicate n c

-- `destination.partition("@")`, where there is an "@".
abbrev pub split_at : List Char → List Char → Option (List Char × List Char)
split_at before [] = none
split_at before (c ∷ cs) =
    if code c == b'@' then some (before, cs) else split_at (before ++ c ∷ []) cs

-- `max(n, 1)`
abbrev pub at_least_one : ℕ → ℕ
at_least_one zero = 1
at_least_one (suc n) = suc n

abbrev pub mask_chars : List Char → Option (List Char × List Char) → List Char
mask_chars d (some (name, domain)) =
    take 2 name ++ (replicate (at_least_one (length name - 2)) "*" ++ ("@" ∷ domain))
mask_chars d none = replicate (length d - 4) "*" ++ drop (length d - 4) d

unfoldable pub mask_destination : String → String
mask_destination d = text (mask_chars (chars d) (split_at [] (chars d)))

abbrev pub digit : ℕ → Char
digit zero = "0"
digit (suc zero) = "1"
digit (suc (suc zero)) = "2"
digit (suc (suc (suc zero))) = "3"
digit (suc (suc (suc (suc zero)))) = "4"
digit (suc (suc (suc (suc (suc zero))))) = "5"
digit (suc (suc (suc (suc (suc (suc zero)))))) = "6"
digit (suc (suc (suc (suc (suc (suc (suc zero))))))) = "7"
digit (suc (suc (suc (suc (suc (suc (suc (suc zero)))))))) = "8"
digit _ = "9"

-- `str(n)`, with fuel above the number of digits; the digits end in `rest`.
unfoldable pub decimal : ℕ → ℕ → List Char → List Char
decimal zero n rest = rest
decimal (suc fuel) n rest =
    let more = decimal fuel (n / 10) (digit (n % 10) ∷ rest) in
    if ltb n 10 then digit n ∷ rest else more

-- `s.zfill(width)` on a text with no sign
abbrev pub zfill : ℕ → List Char → List Char
zfill width s = replicate (width - length s) "0" ++ s

-- `str(n).zfill(width)`; a number has at most n + 1 digits.
unfoldable pub code_chars : ℕ → ℕ → List Char
unfolding decimal
code_chars width n = zfill width (decimal (n + 1) n [])

unfoldable pub code_text : ℕ → ℕ → String
unfolding code_chars
code_text width n = text (code_chars width n)

length-replicate : (n : ℕ) (c : Char) → length (replicate n c) ≡ n
length-replicate zero c = refl
length-replicate (suc n) c = omega (arith, length-replicate n c)

-- A number below 10 ^ w has at most w digits, and the fuel is enough for them.
length-decimal :
    (w fuel n : ℕ) (rest : List Char)
    → n < fuel
    → n < 10 ^ suc w
    → length (decimal fuel n rest) ≤ suc w + length rest
unfolding decimal
length-decimal w zero n rest f h = absurd (omega arith)
length-decimal zero (suc fuel) n rest f h =
    let small : ltb n 10 ≡ true = ground (arith, h) in rw small (omega arith)
length-decimal (suc w) (suc fuel) n rest f h = elim (Bool-cases (ltb n 10)) [
  | inl small ↦ rw small (omega arith)
  | inr large ↦ rw large (
      omega (
        arith,
        length-decimal w fuel (n / 10) (digit (n % 10) ∷ rest)
            (let big : 10 ≤ n = ground arith in omega arith) (omega (arith, pow-suc 10 (suc w))),
      ))
]

-- A code of width w ≥ 1 drawn below 10 ^ w has exactly w characters.
length-code_chars : (w n : ℕ) → 1 ≤ w → n < 10 ^ w → length (code_chars w n) ≡ w
unfolding code_chars
length-code_chars zero n pos h = absurd (omega arith)
length-code_chars (suc w) n pos h = omega (
  arith,
  length-append (replicate (suc w - length (decimal (n + 1) n [])) "0") (decimal (n + 1) n []),
  length-replicate (suc w - length (decimal (n + 1) n [])) "0",
  length-decimal w (n + 1) n [] (omega arith) h,
)
