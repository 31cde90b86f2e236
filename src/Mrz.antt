-- ===== src/Mrz.antt =====
-- app/engines/providers/mrz.py: the machine readable zone of a passport, as lists of characters; its check
-- digits.
pub mod Digits
pub mod Passport
use Prim.Native.Char.{Char, code}
use ekyc.Prelude.{
  ℕ, zero, suc, ◌+◌, ◌-◌, ◌*◌, ◌%◌, String, Bool, true, false, not, ◌&&◌, Option, none, some, List,
  [], ◌∷◌, ◌++◌, length, take, drop, leb, ltb, ◌==◌, if◌then◌else◌,
}

-- The weights 7, 3, 1 in turn: the ones left of a round, then the round again.
abbrev pub weight : ℕ → ℕ
weight zero = 7
weight (suc zero) = 3
weight _ = 1

abbrev pub next_weight : ℕ → ℕ
next_weight zero = 1
next_weight (suc zero) = 2
next_weight _ = 0

-- `char.upper()` of an ASCII character, by its code.
abbrev pub upper_code : ℕ → ℕ
upper_code c = if leb b'a' c && leb c b'z' then c - 32 else c

-- `_char_value` of an ASCII character, by its code; of a character that is no filler and no digit, sixty more than in
-- the source, so that no value is negative. Its last digit, all that `check_digit` depends on, is the same.
abbrev pub char_value : ℕ → ℕ
char_value c =
    if c == b'<' then 0 else if leb b'0' c && leb c b'9' then c - b'0' else upper_code c + 5

-- The weighted sum from a place in the round.
abbrev pub weighted : ℕ → List ℕ → ℕ
weighted i [] = 0
weighted i (v ∷ vs) = v * weight i + weighted (next_weight i) vs

abbrev pub values : List Char → List ℕ
values [] = []
values (c ∷ cs) = char_value (code c) ∷ values cs

-- `check_digit`, as a number.
unfoldable pub check_digit : List Char → ℕ
check_digit value = weighted 0 (values value) % 10

-- `line.ljust(44, "<")[:44]`
abbrev pub fillers : ℕ → List Char
fillers zero = []
fillers (suc n) = "<" ∷ fillers n

abbrev pub padded : List Char → List Char
padded line = take 44 (line ++ fillers (44 - length line))

abbrev pub field : List Char → ℕ → ℕ → List Char
field line start end = take (end - start) (drop start line)

-- Whether the character at a place is the check digit.
abbrev pub is_digit_at : List Char → ℕ → ℕ → Bool
is_digit_at line place digit = elim (drop place line) [
  | [] ↦ false
  | c ∷ rest ↦ code c == b'0' + digit
]

pub record Checks : Type 0 where
  pub document_number : Bool
  pub birth_date : Bool
  pub expiry_date : Bool
  pub composite : Bool

-- The check digits of the second line of `parse_td3`.
unfoldable pub line_checks : List Char → Checks
line_checks raw =
    let line = padded raw in
    record {
      document_number = is_digit_at line 9 (check_digit (field line 0 9));
      birth_date = is_digit_at line 19 (check_digit (field line 13 19));
      expiry_date = is_digit_at line 27 (check_digit (field line 21 27));
      composite =
          is_digit_at line 43
            (check_digit (field line 0 10 ++ (field line 13 20 ++ field line 21 43)));
    }

-- `all(checks.values())`
abbrev pub checks_passed : Checks → Bool
checks_passed c = c.document_number && (c.birth_date && (c.expiry_date && c.composite))
