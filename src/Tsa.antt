-- ===== src/Tsa.antt =====
-- app/engines/tsa.py: the reader of DER values.
pub mod RoundTrip
pub mod Walks
pub mod Authorities
pub mod Honest
pub mod Verify
pub mod Internal
use ekyc.Prelude.{
  ℕ, zero, suc, ◌+◌, ◌%◌, ◌-◌, String, Bool, true, false, not, ◌&&◌, Option, none, some, List, [],
  ◌∷◌, length, take, drop, get_elem?, ltb, leb, ◌==◌, if◌then◌else◌, str_eq, lookup, insert,
  or_else, non_empty,
}
use ekyc.Env.{Env, Bytes, Settings, TsaConfig, Loaded, unset, not_object, object}
use ekyc.Vault.{from_big_endian}

-- `buf[start : start + size]`
abbrev pub slice : Bytes → ℕ → ℕ → Bytes
slice buf start size = take size (drop start buf)

-- A tag, the content, and the offset behind it.
abbrev pub Tlv : Type 0
Tlv = ℕ × Bytes × ℕ

abbrev pub content_at : Bytes → ℕ → ℕ → ℕ → Tlv
content_at buf tag size off = (tag, slice buf off size, off + size)

-- `_read_tlv` behind the tag and the first byte of the length.
abbrev pub sized : Bytes → ℕ → ℕ → ℕ → Tlv
sized buf tag size off =
    if leb 128 size
    then content_at buf tag (from_big_endian 0 (slice buf off (size % 128))) (off + size % 128)
    else content_at buf tag size off

abbrev pub with_size : Bytes → ℕ → Option ℕ → ℕ → Option Tlv
with_size buf tag none off = none
with_size buf tag (some size) off = some (sized buf tag size off)

abbrev pub with_tag : Bytes → Option ℕ → ℕ → Option Tlv
with_tag buf none off = none
with_tag buf (some tag) off = with_size buf tag (get_elem? buf (off + 1)) (off + 2)

-- `_read_tlv`; `none` is an `IndexError`.
unfoldable pub read_tlv : Bytes → ℕ → Option Tlv
read_tlv buf off = with_tag buf (get_elem? buf off) off

-- The elements of a walk: all of them, or what ended it.
pub data Walk : Type 0 where
  walked : List (ℕ × Bytes) → Walk
  index_error out_of_fuel : Walk

abbrev pub preceded : ℕ × Bytes → Walk → Walk
preceded item (walked items) = walked (item ∷ items)
preceded item Walk.index_error = Walk.index_error
preceded item Walk.out_of_fuel = Walk.out_of_fuel

-- One round of the loop, with the walk from the next offset.
abbrev pub continue_walk : Bool → Option Tlv → (ℕ → Walk) → Walk
continue_walk false element walk = walked []
continue_walk true none walk = Walk.index_error
continue_walk true (some (tag, content, next)) walk = preceded (tag, content) (walk next)

-- `_children` from an offset, on fuel.
abbrev pub children_on : ℕ → Bytes → ℕ → Walk
children_on zero buf off = if ltb off (length buf) then Walk.out_of_fuel else walked []
children_on (suc fuel) buf off =
    continue_walk (ltb off (length buf)) (read_tlv buf off) (λ next. children_on fuel buf next)

-- `list(_children(buf))`
unfoldable pub children : Bytes → Walk
children buf = children_on (length buf) buf 0
