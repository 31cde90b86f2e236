-- ===== src/Tests/Passports.antt =====
-- The machine readable zone of a passport at concrete inputs.
use Prim.Native.Char.{Char}
use ekyc.Prelude.{ℕ, String, ◌≡◌, refl, Option, none, List, [], ◌∷◌, arith}
use ekyc.Otp.Text.{chars}
use ekyc.Mrz.Passport.{parse_td3}
use ekyc.Mrz.Passport.Names.{parse_td3-names}

abbrev no_date : ℕ → ℕ → ℕ → Option String
no_date year month day = none

abbrev name_line : List Char
name_line = chars "P<CIVKOUASSI<<AWA"

abbrev data_line : List Char
data_line = chars "AB1234567<CIV9001011F3001011"

parse_td3-names_example :
    let passport = parse_td3 no_date name_line data_line in
    (passport.issuing_country ≡ chars "CIV")
    × (passport.last_name ≡ chars "KOUASSI")
    × (passport.first_name ≡ chars "AWA")
parse_td3-names_example =
    parse_td3-names no_date "P" "<" "C" "I" "V" (chars "KOUASSI") (chars "AWA") data_line
      ((refl, refl), ((refl, refl), ((refl, refl), tt)))
      (
        (refl, refl),
        (
          (refl, refl),
          ((refl, refl), ((refl, refl), ((refl, refl), ((refl, refl), ((refl, refl), tt))))),
        ),
      )
      ((refl, refl), ((refl, refl), ((refl, refl), tt))) (omega arith)

abbrev lines_of : String → List String
lines_of text =
    "REPUBLIQUE" ∷ "P<CIVKOUASSI<<AWA<<<<<<<<<<<<<<<<<<<<<<<<<<<"
    ∷ "AB1234567<CIV9001011F3001011<<<<<<<<<<<<<<04" ∷ []

abbrev zone : List Char × List Char
zone = (
  chars "P<CIVKOUASSI<<AWA<<<<<<<<<<<<<<<<<<<<<<<<<<<",
  chars "AB1234567<CIV9001011F3001011<<<<<<<<<<<<<<04",
)
