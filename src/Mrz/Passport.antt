-- ===== src/Mrz/Passport.antt =====
-- app/engines/providers/mrz.py: the fields of a passport and the search for its two lines. The lines of a text, their
-- upper case and the calendar are the language's; a line of the zone has ASCII characters only.
pub mod Names
pub mod Search
use Prim.Native.Char.{Char, code}
use ekyc.Prelude.{
  ℕ, ◌+◌, ◌*◌, ◌-◌, String, Bool, true, false, not, ◌&&◌, ◌||◌, Option, none, some, List, [], ◌∷◌,
  length, take, drop, select, leb, ◌==◌, if◌then◌else◌,
}
use ekyc.Otp.Text.{chars}
use ekyc.Mrz.{padded, field, Checks, line_checks, checks_passed}

abbrev pub is_filler : Char → Bool
is_filler c = code c == b'<'

-- White space of ASCII.
abbrev pub is_blank : Char → Bool
is_blank c =
    code c == b' ' || ((leb 9 (code c) && leb (code c) 13) || (leb 28 (code c) && leb (code c) 31))

abbrev pub is_ascii_digit : Char → Bool
is_ascii_digit c = leb b'0' (code c) && leb (code c) b'9'

-- `_MRZ_ALPHABET`
abbrev pub is_mrz_char : Char → Bool
is_mrz_char c = (leb b'A' (code c) && leb (code c) b'Z') || (is_ascii_digit c || is_filler c)

abbrev pub every : (Char → Bool) → List Char → Bool
every test [] = true
every test (c ∷ cs) = test c && every test cs

-- `replace("<", " ")`
abbrev pub spaced : List Char → List Char
spaced [] = []
spaced (c ∷ cs) = (if is_filler c then " " else c) ∷ spaced cs

-- `replace("<", "")`
abbrev pub unfilled : List Char → List Char
unfilled [] = []
unfilled (c ∷ cs) = if is_filler c then unfilled cs else c ∷ unfilled cs

abbrev pub lstrip : List Char → List Char
lstrip [] = []
lstrip (c ∷ cs) = if is_blank c then lstrip cs else c ∷ cs

-- A blank in front of a stripped text.
abbrev pub blank_before : Char → List Char → List Char
blank_before c [] = if is_blank c then [] else c ∷ []
blank_before c (d ∷ ds) = c ∷ d ∷ ds

abbrev pub rstrip : List Char → List Char
rstrip [] = []
rstrip (c ∷ cs) = blank_before c (rstrip cs)

abbrev pub strip : List Char → List Char
strip cs = rstrip (lstrip cs)

-- What `split("<<", 1)` has before the separator and behind it, or the whole text and nothing.
abbrev pub split_names : List Char → List Char × List Char
split_names [] = ([], [])
split_names (c ∷ []) = (c ∷ [], [])
split_names (c ∷ d ∷ rest) =
    let (before, behind) = split_names (d ∷ rest) in
    if is_filler c && is_filler d then ([], rest) else (c ∷ before, behind)

-- `int(text)` of ASCII digits, after the number `n`.
abbrev pub int_from : ℕ → List Char → ℕ
int_from n [] = n
int_from n (c ∷ cs) = int_from (n * 10 + (code c - b'0')) cs

abbrev pub century : (year pivot : ℕ) → ℕ
century year pivot = if leb year pivot then 2000 else 1900

pub record Passport : Type 0 where
  pub issuing_country : List Char
  pub last_name : List Char
  pub first_name : List Char
  pub document_number : List Char
  pub nationality : List Char
  pub date_of_birth : Option String
  pub sex : List Char
  pub expiry_date : Option String
  pub checks : Checks
  pub checks_passed : Bool

-- `date(year, month, day).isoformat()`; `none` is a `ValueError`.
module _ (date : (year month day : ℕ) → Option String) where
  -- `_parse_date`
  abbrev pub parse_date : List Char → (pivot : ℕ) → Option String
  parse_date value pivot =
      let year = int_from 0 (field value 0 2) in
      if length value == 6 && every is_ascii_digit value
      then date (century year pivot + year) (int_from 0 (field value 2 4))
          (int_from 0 (field value 4 6))
      else none

  unfoldable pub parse_td3 : List Char → List Char → Passport
  parse_td3 raw1 raw2 =
      let line1 = padded raw1 in
      let line2 = padded raw2 in
      let (surname, given) = split_names (field line1 5 44) in
      let checks = line_checks raw2 in
      record {
        issuing_country = unfilled (field line1 2 5);
        last_name = strip (spaced surname);
        first_name = strip (spaced given);
        document_number = strip (unfilled (field line2 0 9));
        nationality = unfilled (field line2 10 13);
        date_of_birth = parse_date (field line2 13 19) 30;
        sex = unfilled (field line2 20 21);
        expiry_date = parse_date (field line2 21 27) 99;
        checks = checks;
        checks_passed = checks_passed checks;
      }

-- `MRZ_LINE_RE`
abbrev pub is_mrz_line : List Char → Bool
is_mrz_line line = leb 30 (length line) && (leb (length line) 44 && every is_mrz_char line)

-- `startswith(("P<", "I<"))`
abbrev pub is_prefixed : List Char → Bool
is_prefixed (c ∷ d ∷ rest) = (code c == b'P' || code c == b'I') && is_filler d
is_prefixed _ = false

-- The first two neighbours that may be a zone.
abbrev pub first_pair : List (List Char) → Option (List Char × List Char)
first_pair [] = none
first_pair (line ∷ []) = none
first_pair (first ∷ second ∷ rest) =
    let later = first_pair (second ∷ rest) in
    if leb 44 (length first) || is_prefixed first then some (first, second) else later

module _ (splitlines : String → List String) (upper : String → String) where
  -- `_normalize`
  abbrev pub normalize : String → List Char
  normalize line = take 44 (select is_mrz_char (chars (upper line)))

  -- The normalized lines that look like a line of a zone; an empty one does not.
  abbrev pub candidates : List String → List (List Char)
  candidates [] = []
  candidates (line ∷ rest) =
      let later = candidates rest in
      if is_mrz_line (normalize line) then normalize line ∷ later else later

  unfoldable pub find_mrz : String → Option (List Char × List Char)
  find_mrz text = first_pair (candidates (splitlines text))
