-- ===== src/Tsa/RoundTrip.antt =====
-- The reader of app/engines/tsa.py on what the encoder of app/engines/asn1.py writes.
use ekyc.Prelude.{
  ℕ, zero, suc, ◌+◌, ◌/◌, ◌%◌, ◌<◌, ◌≤◌, ◌≡◌, refl, sym, ap, ◌∙◌, some, List, [], ◌∷◌, ◌++◌, map,
  All, length, get_elem?, ltb, leb, ltb→lt, true, false, Bool-cases, inl, inr, arith, length-append,
  take-append, drop-append, append_assoc, append-nil,
}
use ekyc.Env.{Bytes}
use ekyc.Vault.{from_big_endian}
use ekyc.Asn1.{bit_length, to_bytes, length_bytes, tlv, joined}
use ekyc.Asn1.Numbers.{length-to_bytes, from_big_endian-to_bytes, byte_count-bound}
use ekyc.Tsa.{slice, read_tlv, walked, preceded, children_on, children}

get_elem-append :
    (pre : Bytes) (x : ℕ) (rest : Bytes) → get_elem? (pre ++ x ∷ rest) (length pre) ≡ some x
get_elem-append [] x rest = refl
get_elem-append (p ∷ pre) x rest = get_elem-append pre x rest

-- What stands in a buffer behind its front.
module _ (buf front : Bytes) (off : ℕ) (behind : off ≡ length front) where
  elem_behind : (x : ℕ) (rest : Bytes) → buf ≡ front ++ x ∷ rest → get_elem? buf off ≡ some x
  elem_behind x rest e = rw (e, behind) (get_elem-append front x rest)

  slice_behind :
      (value rest : Bytes) (size : ℕ)
      → size ≡ length value
      → buf ≡ front ++ (value ++ rest)
      → slice buf off size ≡ value
  slice_behind value rest size same e = rw (e, behind, same, drop-append, take-append) refl

-- The number of bytes that the length of a content takes.
abbrev pub count : Bytes → ℕ
count value = (bit_length (length value) + 7) / 8

-- The length of the content has at most 127 bytes.
abbrev pub Short : Bytes → Type 0
Short value = count value < 128

module _ (buf pre : Bytes) (tag : ℕ) (value rest : Bytes) where
  -- A content of less than 128 bytes.
  read_tlv-small :
      length value < 128
      → buf ≡ pre ++ (tag ∷ length value ∷ (value ++ rest))
      → read_tlv buf (length pre) ≡ some (tag, value, length pre + 2 + length value)
  unfolding read_tlv
  read_tlv-small small e =
      let size = length value in
      let tag_is = elem_behind buf pre (length pre) refl tag (size ∷ (value ++ rest)) e in
      let size_is =
        elem_behind buf (pre ++ tag ∷ []) (length pre + 1)
          (omega (arith, length-append pre (tag ∷ []))) size (value ++ rest)
          (e ∙ sym (append_assoc pre (tag ∷ []) (size ∷ (value ++ rest)))) in
      let content_is =
        slice_behind buf (pre ++ tag ∷ size ∷ []) (length pre + 2)
          (omega (arith, length-append pre (tag ∷ size ∷ []))) value rest size refl
          (e ∙ sym (append_assoc pre (tag ∷ size ∷ []) (value ++ rest))) in
      let direct : leb 128 size ≡ false = ground arith in
      rw (tag_is, size_is, direct, content_is) refl

  -- A longer content, with the bytes of its length.
  read_tlv-long :
      (encoded : Bytes)
      → length encoded < 128
      → from_big_endian 0 encoded ≡ length value
      → buf ≡ pre ++ (tag ∷ (128 + length encoded) ∷ (encoded ++ (value ++ rest)))
      → read_tlv buf (length pre)
        ≡ some (tag, value, length pre + 2 + length encoded + length value)
  unfolding read_tlv
  read_tlv-long encoded few shown e =
      let size = 128 + length encoded in
      let tag_is =
        elem_behind buf pre (length pre) refl tag (size ∷ (encoded ++ (value ++ rest))) e in
      let size_is =
        elem_behind buf (pre ++ tag ∷ []) (length pre + 1)
          (omega (arith, length-append pre (tag ∷ []))) size (encoded ++ (value ++ rest))
          (e ∙ sym (append_assoc pre (tag ∷ []) (size ∷ (encoded ++ (value ++ rest))))) in
      let encoded_is =
        slice_behind buf (pre ++ tag ∷ size ∷ []) (length pre + 2)
          (omega (arith, length-append pre (tag ∷ size ∷ []))) encoded (value ++ rest)
          (length encoded) refl
          (e ∙ sym (append_assoc pre (tag ∷ size ∷ []) (encoded ++ (value ++ rest)))) in
      let content_is =
        slice_behind buf (pre ++ (tag ∷ size ∷ encoded)) (length pre + 2 + length encoded)
          (omega (arith, length-append pre (tag ∷ size ∷ encoded))) value rest (length value) refl
          (e ∙ sym (append_assoc pre (tag ∷ size ∷ encoded) (value ++ rest))) in
      let marked : leb 128 size ≡ true = ground arith in
      let count_is : size % 128 ≡ length encoded = omega arith in
      rw (tag_is, size_is, marked, count_is, encoded_is, shown, content_is) refl

-- The reader at an encoded value, anywhere in a buffer, gives the tag and the content back, and the offset behind
-- the value.
pub read_tlv-tlv :
    (pre : Bytes) (tag : ℕ) (value rest : Bytes)
    → Short value
    → read_tlv (pre ++ (tlv tag value ++ rest)) (length pre)
      ≡ some (tag, value, length pre + length (tlv tag value))
unfolding tlv length_bytes
read_tlv-tlv pre tag value rest short = elim (Bool-cases (ltb (length value) 128)) [
  | inl small ↦
      let size = length value in
      let at : read_tlv (pre ++ (tag ∷ size ∷ (value ++ rest))) (length pre)
          ≡ some (tag, value, length pre + 2 + size) =
        read_tlv-small _ pre tag value rest (ltb→lt size 128 small) refl in
      let next : length pre + 2 + size ≡ length pre + suc (suc size) = omega arith in
      rw small (at ∙ ap (λ n. some (tag, value, n)) next)
  | inr long ↦
      let encoded = to_bytes (count value) (length value) in
      let few = length-to_bytes (count value) (length value) in
      let shown =
        from_big_endian-to_bytes (count value) (length value) (byte_count-bound (length value)) in
      let at : read_tlv (pre ++ (tag ∷ (128 + length encoded) ∷ ((encoded ++ value) ++ rest)))
            (length pre)
          ≡ some (tag, value, length pre + 2 + length encoded + length value) =
        read_tlv-long _ pre tag value rest encoded (rw few short) shown (
          ap (λ bytes. pre ++ (tag ∷ (128 + length encoded) ∷ bytes))
            (append_assoc encoded value rest)) in
      let next : length pre + 2 + length encoded + length value
          ≡ length pre + suc (suc (length (encoded ++ value))) =
        omega (arith, length-append encoded value) in
      rw long (at ∙ ap (λ n. some (tag, value, n)) next)
]

-- The encoding of an element, and the elements that the encoder can write.
abbrev pub element : ℕ × Bytes → Bytes
element (tag, value) = tlv tag value

abbrev pub ShortElement : ℕ × Bytes → Type 0
ShortElement (tag, value) = Short value

tlv-positive : (tag : ℕ) (value : Bytes) → 0 < length (tlv tag value)
unfolding tlv
tlv-positive tag value = omega arith

children_on-joined :
    (fuel : ℕ) (pre : Bytes) (items : List (ℕ × Bytes))
    → length items ≤ fuel
    → All ShortElement items
    → children_on fuel (pre ++ joined (map element items)) (length pre) ≡ walked items
children_on-joined zero pre [] enough short =
    let over : ltb (length pre) (length pre) ≡ false = ground arith in rw (append-nil, over) refl
children_on-joined (suc fuel) pre [] enough short =
    let over : ltb (length pre) (length pre) ≡ false = ground arith in rw (append-nil, over) refl
children_on-joined zero pre (item ∷ items) enough short = absurd (omega arith)
children_on-joined (suc fuel) pre ((tag, value) ∷ items) enough (short, others) =
    let code = tlv tag value in
    let behind = joined (map element items) in
    let inside : ltb (length pre) (length (pre ++ (code ++ behind))) ≡ true = ground (
      arith,
      length-append pre (code ++ behind),
      length-append code behind,
      tlv-positive tag value,
    ) in
    let rest = children_on-joined fuel (pre ++ code) items (omega arith) others in
    rw
      (
        inside,
        read_tlv-tlv pre tag value behind short,
        ← length-append pre code,
        ← append_assoc pre code behind,
      )
      (ap (preceded (tag, value)) rest)

length-joined : (items : List (ℕ × Bytes)) → length items ≤ length (joined (map element items))
length-joined [] = omega arith
length-joined ((tag, value) ∷ items) = omega (
  arith,
  length-append (tlv tag value) (joined (map element items)),
  tlv-positive tag value,
  length-joined items,
)

-- The walk over the encoded elements of a sequence gives the elements back, in their order, where the length of each
-- takes at most 127 bytes.
pub children-joined :
    (items : List (ℕ × Bytes))
    → All ShortElement items
    → children (joined (map element items)) ≡ walked items
unfolding children
children-joined items short =
    children_on-joined (length (joined (map element items))) [] items (length-joined items) short
