-- ===== src/Tsa/Walks.antt =====
-- The loop of `_children` in app/engines/tsa.py ends.
use ekyc.Prelude.{
  ℕ, zero, suc, ◌+◌, ◌<◌, ◌≤◌, ◌≡◌, ◌≢◌, refl, Bool, true, false, Bool-cases, inl, inr, Option,
  none, some, [], length, get_elem?, ltb, leb, arith,
}
use ekyc.Env.{Bytes}
use ekyc.Tsa.{
  Tlv, with_tag, with_size, sized, read_tlv, Walk, walked, preceded, continue_walk, children_on,
  children,
}

-- The offset behind an element that was read is a later one.
abbrev Advances : ℕ → Option Tlv → Type 0
Advances off none = Unit
Advances off (some (tag, content, next)) = off < next

sized-Advances :
    (buf : Bytes) (tag size off : ℕ) → Advances off (some (sized buf tag size (off + 2)))
sized-Advances buf tag size off = elim (Bool-cases (leb 128 size)) [
  | inl long ↦ rw long (omega arith)
  | inr small ↦ rw small (omega arith)
]

with_size-Advances :
    (buf : Bytes) (tag : ℕ) (size : Option ℕ) (off : ℕ)
    → Advances off (with_size buf tag size (off + 2))
with_size-Advances buf tag none off = tt
with_size-Advances buf tag (some size) off = sized-Advances buf tag size off

with_tag-Advances : (buf : Bytes) (tag : Option ℕ) (off : ℕ) → Advances off (with_tag buf tag off)
with_tag-Advances buf none off = tt
with_tag-Advances buf (some tag) off = with_size-Advances buf tag (get_elem? buf (off + 1)) off

preceded-ends :
    (item : ℕ × Bytes) (w : Walk) → w ≢ Walk.out_of_fuel → preceded item w ≢ Walk.out_of_fuel
preceded-ends item (walked items) ends e = cc
preceded-ends item Walk.index_error ends e = cc
preceded-ends item Walk.out_of_fuel ends e = absurd (ends refl)

continue_walk-ends :
    (inside : Bool) (o : Option Tlv) (off : ℕ) (walk : ℕ → Walk)
    → Advances off o
    → ((next : ℕ) → off < next → walk next ≢ Walk.out_of_fuel)
    → continue_walk inside o walk ≢ Walk.out_of_fuel
continue_walk-ends false o off walk later ends e = cc
continue_walk-ends true none off walk later ends e = cc
continue_walk-ends true (some (tag, content, next)) off walk later ends e =
    preceded-ends (tag, content) (walk next) (ends next later) e

children_on-ends :
    (fuel : ℕ) (buf : Bytes) (off : ℕ)
    → length buf ≤ fuel + off
    → children_on fuel buf off ≢ Walk.out_of_fuel
unfolding read_tlv
children_on-ends zero buf off enough e =
    let over : ltb off (length buf) ≡ false = ground arith in
    let done : walked [] ≡ Walk.out_of_fuel = rw over at e in cc
children_on-ends (suc fuel) buf off enough e =
    continue_walk-ends (ltb off (length buf)) (read_tlv buf off) off (children_on fuel buf)
      (with_tag-Advances buf (get_elem? buf off) off)
      (λ next later. children_on-ends fuel buf next (omega arith)) e

-- The walk over any bytes ends with its elements or with an error: the loop takes at most as many rounds as there
-- are bytes.
pub children-ends : (buf : Bytes) → children buf ≢ Walk.out_of_fuel
unfolding children
children-ends buf = children_on-ends (length buf) buf 0 (omega arith)
