-- ===== src/Mrz/Passport/Names.antt =====
-- The names of a passport are read back.
use Prim.Native.Char.{Char}
use ekyc.Prelude.{
  ℕ, zero, suc, ◌+◌, ◌-◌, ◌≤◌, String, ◌≡◌, refl, ap, ◌∙◌, false, Option, List, [], ◌∷◌, ◌++◌,
  length, take, All, arith, length-append, append_assoc, append-nil,
}
use mathlib.Core.Path.{subst}
use ekyc.Mrz.{fillers, padded, field}
use ekyc.Mrz.Passport.{
  is_filler, is_blank, spaced, unfilled, lstrip, rstrip, strip, split_names, parse_td3,
}

-- A character that is no filler and no blank.
abbrev IsLetter : Char → Type 0
IsLetter c = (is_filler c ≡ false) × (is_blank c ≡ false)

-- A word of such characters.
abbrev pub IsWord : List Char → Type 0
IsWord word = All IsLetter word

abbrev blanks : ℕ → List Char
blanks zero = []
blanks (suc n) = " " ∷ blanks n

spaced-word :
    (word : List Char) (n : ℕ) → IsWord word → spaced (word ++ fillers n) ≡ word ++ blanks n
spaced-word [] zero letters = refl
spaced-word [] (suc n) letters = ap (λ cs. " " ∷ cs) (spaced-word [] n tt)
spaced-word (c ∷ cs) n letters = rw letters.0.0 (ap (λ ds. c ∷ ds) (spaced-word cs n letters.1))

rstrip-blanks : (n : ℕ) → rstrip (blanks n) ≡ []
rstrip-blanks zero = refl
rstrip-blanks (suc n) = rw (rstrip-blanks n) refl

rstrip-word : (word : List Char) (n : ℕ) → IsWord word → rstrip (word ++ blanks n) ≡ word
rstrip-word [] n letters = rstrip-blanks n
rstrip-word (c ∷ []) n letters = rw (rstrip-blanks n, letters.0.1) refl
rstrip-word (c ∷ d ∷ ds) n letters = rw (rstrip-word (d ∷ ds) n letters.1) refl

lstrip-blanks : (n : ℕ) → lstrip (blanks n) ≡ []
lstrip-blanks zero = refl
lstrip-blanks (suc n) = lstrip-blanks n

strip-word : (word : List Char) (n : ℕ) → IsWord word → strip (spaced (word ++ fillers n)) ≡ word
strip-word [] n letters = rw (spaced-word [] n letters, lstrip-blanks n) refl
strip-word (c ∷ cs) n letters =
    rw (letters.0.0, letters.0.1) (rw (spaced-word cs n letters.1) (rstrip-word (c ∷ cs) n letters))

unfilled-word : (word : List Char) → IsWord word → unfilled word ≡ word
unfilled-word [] letters = refl
unfilled-word (c ∷ cs) letters = rw letters.0.0 (ap (λ ds. c ∷ ds) (unfilled-word cs letters.1))

split_names-word :
    (word rest : List Char) → IsWord word → split_names (word ++ ("<" ∷ "<" ∷ rest)) ≡ (word, rest)
split_names-word [] rest letters = refl
split_names-word (c ∷ []) rest letters = rw letters.0.0 refl
split_names-word (c ∷ d ∷ ds) rest letters =
    rw (letters.0.0, split_names-word (d ∷ ds) rest letters.1) refl

length-fillers : (n : ℕ) → length (fillers n) ≡ n
length-fillers zero = refl
length-fillers (suc n) = ap suc (length-fillers n)

take-all : (n : ℕ) (cs : List Char) → length cs ≡ n → take n cs ≡ cs
take-all zero [] h = refl
take-all zero (c ∷ cs) h = absurd (omega (arith, h))
take-all (suc n) [] h = refl
take-all (suc n) (c ∷ cs) h = ap (λ ds. c ∷ ds) (take-all n cs (omega (arith, h)))

-- The part of a first line that has the names, with the fillers behind it.
filled_out :
    (names : List Char)
    → length names ≤ 39
    → take 39 (names ++ fillers (39 - length names)) ≡ names ++ fillers (39 - length names)
filled_out names short = take-all 39 _ (
    omega (
      arith,
      short,
      length-append names (fillers (39 - length names)),
      length-fillers (39 - length names),
    ))

names_field :
    (p t a b c : Char) (names : List Char)
    → length names ≤ 39
    → field (padded (p ∷ t ∷ a ∷ b ∷ c ∷ names)) 5 44 ≡ names ++ fillers (39 - length names)
names_field p t a b c names short =
    let left : 44 - suc (suc (suc (suc (suc (length names))))) ≡ 39 - length names = omega arith in
    let full = filled_out names short in rw (left, full) full

-- The two names behind the separator, and the fillers.
split_names-field :
    (surname given : List Char) (n : ℕ)
    → IsWord surname
    → split_names ((surname ++ ("<" ∷ "<" ∷ given)) ++ fillers n) ≡ (surname, given ++ fillers n)
split_names-field surname given n last =
    rw (append_assoc surname ("<" ∷ "<" ∷ given) (fillers n))
      (split_names-word surname (given ++ fillers n) last)

last_name-word : (surname : List Char) → IsWord surname → strip (spaced surname) ≡ surname
last_name-word surname last =
    subst (λ cs. strip (spaced cs) ≡ surname) (append-nil surname) (strip-word surname 0 last)

-- A passport whose first line has a country, a surname and a given name, each without fillers and blanks, and has room
-- for them, is read with this country and these names; the second line and the first two characters do not matter.
pub parse_td3-names :
    (date : ℕ → ℕ → ℕ → Option String) (p t a b c : Char) (surname given line2 : List Char)
    → IsWord (a ∷ b ∷ c ∷ [])
    → IsWord surname
    → IsWord given
    → length surname + length given ≤ 37
    → let passport = parse_td3 date (p ∷ t ∷ a ∷ b ∷ c ∷ (surname ++ ("<" ∷ "<" ∷ given))) line2 in
      (passport.issuing_country ≡ a ∷ b ∷ c ∷ [])
      × (passport.last_name ≡ surname)
      × (passport.first_name ≡ given)
unfolding parse_td3
parse_td3-names date p t a b c surname given line2 country last first room =
    let names = surname ++ ("<" ∷ "<" ∷ given) in
    let short : length names ≤ 39 =
      omega (arith, room, length-append surname ("<" ∷ "<" ∷ given)) in
    let parts : split_names (field (padded (p ∷ t ∷ a ∷ b ∷ c ∷ names)) 5 44)
        ≡ (surname, given ++ fillers (39 - length names)) =
      ap split_names (names_field p t a b c names short)
      ∙ split_names-field surname given (39 - length names) last in
    (
      unfilled-word (a ∷ b ∷ c ∷ []) country,
      ap (λ r. strip (spaced r.0)) parts ∙ last_name-word surname last,
      ap (λ r. strip (spaced r.1)) parts ∙ strip-word given (39 - length names) first,
    )
