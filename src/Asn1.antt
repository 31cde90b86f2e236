-- ===== src/Asn1.antt =====
-- app/engines/asn1.py: the DER encoder.
pub mod Numbers
use ekyc.Prelude.{
  ℕ, zero, suc, ◌+◌, ◌*◌, ◌/◌, ◌%◌, Bool, true, false, Option, none, some, List, [], ◌∷◌, ◌++◌,
  length, ltb, ◌==◌, if◌then◌else◌,
}
use ekyc.Env.{Env, Bytes}
use ekyc.Exec.{Exec, pure, draw, ◌>>=◌}

-- `int.bit_length`, on fuel; the number itself is enough.
abbrev pub bit_length_on : ℕ → ℕ → ℕ
bit_length_on zero n = 0
bit_length_on (suc fuel) n = let rest = bit_length_on fuel (n / 2) in if n == 0 then 0 else suc rest

abbrev pub bit_length : ℕ → ℕ
bit_length n = bit_length_on n n

-- `n.to_bytes(size, "big")`, for a number that fits.
abbrev pub to_bytes : ℕ → ℕ → Bytes
to_bytes zero n = []
to_bytes (suc size) n = to_bytes size (n / 256) ++ n % 256 ∷ []

-- `_length` of more than 127 bytes.
abbrev pub long_length : Bytes → Bytes
long_length encoded = (128 + length encoded) ∷ encoded

-- `_length`
unfoldable pub length_bytes : ℕ → Bytes
length_bytes size =
    if ltb size 128 then size ∷ [] else long_length (to_bytes ((bit_length size + 7) / 8) size)

-- `_tlv`
unfoldable pub tlv : ℕ → Bytes → Bytes
tlv tag value = tag ∷ length_bytes (length value) ++ value

-- `lstrip(b"\x00")`
abbrev pub strip_zeros : Bytes → Bytes
strip_zeros [] = []
strip_zeros (b ∷ rest) = if b == 0 then strip_zeros rest else b ∷ rest

abbrev pub or_zero : Bytes → Bytes
or_zero [] = 0 ∷ []
or_zero bytes = bytes

-- The content of an encoded integer.
abbrev pub integer_content : ℕ → Bytes
integer_content n =
    if n == 0 then 0 ∷ [] else or_zero (strip_zeros (to_bytes ((bit_length n + 8) / 8) n))

unfoldable pub encode_integer : ℕ → Bytes
encode_integer n = tlv 2 (integer_content n)

unfoldable pub encode_octet_string : Bytes → Bytes
encode_octet_string value = tlv 4 value

unfoldable pub encode_boolean : Bool → Bytes
encode_boolean value = tlv 1 ((if value then 255 else 0) ∷ [])

unfoldable pub encode_null : Bytes
encode_null = tlv 5 []

-- The chunks of a component but the last, on fuel; the component is enough.
abbrev pub high_chunks : ℕ → ℕ → Bytes → Bytes
high_chunks zero n chunks = chunks
high_chunks (suc fuel) n chunks =
    let rest = high_chunks fuel (n / 128) ((n % 128 + 128) ∷ chunks) in
    if n == 0 then chunks else rest

abbrev pub encode_component : ℕ → Bytes
encode_component n = high_chunks n (n / 128) (n % 128 ∷ [])

abbrev pub encode_components : List ℕ → Bytes
encode_components [] = []
encode_components (n ∷ rest) = encode_component n ++ encode_components rest

-- `encode_oid`, with the first two components apart.
unfoldable pub encode_oid : ℕ → ℕ → List ℕ → Bytes
encode_oid first second rest = tlv 6 ((first * 40 + second) ∷ encode_components rest)

abbrev pub joined : List Bytes → Bytes
joined [] = []
joined (item ∷ rest) = item ++ joined rest

unfoldable pub encode_sequence : List Bytes → Bytes
encode_sequence items = tlv 48 (joined items)

-- `encode_oid(SHA256_OID)`
abbrev pub sha256_oid : Bytes
sha256_oid = encode_oid 2 16 (840 ∷ 1 ∷ 101 ∷ 3 ∷ 4 ∷ 2 ∷ 1 ∷ [])

-- `build_timestamp_request`, with the random number of the nonce.
abbrev pub timestamp_request : Bytes → ℕ → Bytes
timestamp_request digest nonce = encode_sequence (
    encode_integer 1
    ∷ encode_sequence
        (encode_sequence (sha256_oid ∷ encode_null ∷ []) ∷ encode_octet_string digest ∷ [])
    ∷ encode_integer nonce
    ∷ encode_boolean true
    ∷ [])

unfoldable pub build_timestamp_request : Env → Bytes → Exec Bytes
build_timestamp_request env digest = do
  n ← draw
  pure (timestamp_request digest (env.randbelow n 18446744073709551616))
