-- ===== src/Prelude/Dict.antt =====
-- A Python dict with string keys, in insertion order.
use Prim.Native.String.{String}
use mathlib.Core.Path.{◌≡◌, refl}
use mathlib.Core.Option.{Option, none, some}
use mathlib.Core.List.{List, [], ◌∷◌}
use native.Mathlib.Omega.{arith}
use text.Mathlib.Text.{◌==◌}
use text.Mathlib.TextEquality.{eq_iff}
use package.ekyc.Prelude.Tests.{if◌then◌else◌}

module _ {ℓ} {V : Type ℓ} where
  -- `d.get(k)`
  abbrev pub lookup : String → List (String × V) → Option V
  lookup k [] = none
  lookup k ((j, v) ∷ d) = if j == k then some v else lookup k d

  -- `d[k] = v`
  abbrev pub insert : String → V → List (String × V) → List (String × V)
  insert k v [] = (k, v) ∷ []
  insert k v ((j, w) ∷ d) = if j == k then (k, v) ∷ d else (j, w) ∷ insert k v d

  -- `d.update(new)`
  abbrev pub update : List (String × V) → List (String × V) → List (String × V)
  update d [] = d
  update d ((k, v) ∷ new) = update (insert k v d) new

  -- The last binding of a key.
  abbrev pub lookup_last : String → List (String × V) → Option V
  lookup_last k [] = none
  lookup_last k ((j, v) ∷ d) = elim (lookup_last k d) [
    | none ↦ if j == k then some v else none
    | some w ↦ some w
  ]

  pub lookup-insert :
      (k j : String) (v : V) (d : List (String × V))
      → lookup j (insert k v d) ≡ (if k == j then some v else lookup j d)
  lookup-insert k j v [] = refl
  lookup-insert k j v ((i, w) ∷ d) =
      ground (arith, eq_iff k j, eq_iff i k, eq_iff i j, lookup-insert k j v d)

  pub lookup-update :
      (j : String) (d new : List (String × V))
      → lookup j (update d new) ≡ elim (lookup_last j new) [ none ↦ lookup j d | some v ↦ some v ]
  lookup-update j d [] = refl
  lookup-update j d ((k, v) ∷ new) =
      ground (arith, lookup-insert k j v d, lookup-update j (insert k v d) new)
