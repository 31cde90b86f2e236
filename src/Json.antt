-- ===== src/Json.antt =====
-- JSON values as they stand in audit payloads (app/core/hashing.py serialises them), and the
-- IEEE doubles that Python calls `float`, kept as bit patterns: arithmetic on them is the
-- interpreter's, and enters through `ekyc.Env.FloatOps`.
use ekyc.Prelude.{Option, none, some, str_eq, if◌then◌else◌, ℕ, String, Bool, List, [], ◌∷◌}

pub record Double : Type 0 where
  pub bits : ℕ

mutual
  pub data Json : Type 0 where
    null : Json
    bool : Bool → Json
    int : ℕ → Json
    float : Double → Json
    str : String → Json
    arr : Items → Json
    obj : Fields → Json

  pub data Items : Type 0 where
    nil : Items
    cons : Json → Items → Items

  pub data Fields : Type 0 where
    end : Fields
    field : String → Json → Fields → Fields

-- `payload.get(key)`
abbrev pub get_field : String → Fields → Option Json
get_field key end = none
get_field key (field k v rest) = if str_eq k key then some v else get_field key rest

-- A dict literal.
abbrev pub dict : List (String × Json) → Fields
dict [] = end
dict ((k, v) ∷ rest) = field k v (dict rest)

abbrev pub strings : List String → Json
strings xs = arr (go xs)
  where
    go : List String → Items
    go [] = nil
    go (s ∷ rest) = cons (str s) (go rest)
