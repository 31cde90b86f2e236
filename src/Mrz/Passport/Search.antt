-- ===== src/Mrz/Passport/Search.antt =====
-- What the search for the zone in a text finds.
use Prim.Native.Char.{Char}
use ekyc.Prelude.{◌≡◌, true, ◌||◌, Option, none, some, List, length, leb, All}
use ekyc.Mrz.Passport.{is_mrz_line, is_prefixed}

abbrev Lines : List (List Char) → Type 0
Lines lines = All (λ line. is_mrz_line line ≡ true) lines

-- Two lines of a zone.
abbrev pub IsZone : List Char × List Char → Type 0
IsZone (first, second) =
    (is_mrz_line first ≡ true)
    × (is_mrz_line second ≡ true)
    × ((leb 44 (length first) || is_prefixed first) ≡ true)

abbrev IsFound : Option (List Char × List Char) → Type 0
IsFound none = Unit
IsFound (some zone) = IsZone zone
