-- ===== src/Asn1/Numbers.antt =====
-- The bytes of a number show the number.
use native.Mathlib.Nat.{pow-suc, pow-le-pow_right}
use ekyc.Prelude.{
  ℕ, zero, suc, ◌+◌, ◌*◌, ◌/◌, ◌%◌, ◌^◌, ◌<◌, ◌≤◌, ◌==◌, ◌≡◌, refl, [], ◌∷◌, ◌++◌, length, arith,
  length-append, Bool-cases, inl, inr,
}
use ekyc.Env.{Bytes}
use ekyc.Vault.{from_big_endian}
use ekyc.Asn1.{bit_length_on, bit_length, to_bytes}

pub length-to_bytes : (size n : ℕ) → length (to_bytes size n) ≡ size
length-to_bytes zero n = refl
length-to_bytes (suc size) n =
    omega (
      arith,
      length-append (to_bytes size (n / 256)) (n % 256 ∷ []),
      length-to_bytes size (n / 256),
    )

from_big_endian-append :
    (xs : Bytes) (acc b : ℕ) → from_big_endian acc (xs ++ b ∷ []) ≡ from_big_endian acc xs * 256 + b
from_big_endian-append [] acc b = refl
from_big_endian-append (x ∷ xs) acc b = from_big_endian-append xs (acc * 256 + x) b

pub from_big_endian-to_bytes :
    (size n : ℕ) → n < 256 ^ size → from_big_endian 0 (to_bytes size n) ≡ n
from_big_endian-to_bytes zero n small = omega arith
from_big_endian-to_bytes (suc size) n small =
    let fits : n < 256 ^ size * 256 = rw (← pow-suc 256 size) small in
    let rest = from_big_endian-to_bytes size (n / 256) (omega arith) in
    rw (from_big_endian-append, rest) (omega arith)

bit_length_on-bound : (fuel n : ℕ) → n ≤ fuel → n < 2 ^ bit_length_on fuel n
bit_length_on-bound zero n h = omega arith
bit_length_on-bound (suc fuel) n h = elim (Bool-cases (n == 0)) [
  | inl nil ↦ rw nil (ground arith)
  | inr more ↦
      let positive : 0 < n = ground arith in
      let rest = bit_length_on-bound fuel (n / 2) (omega arith) in rw (more, pow-suc) (omega arith)
]

pow-eight : (m : ℕ) → 2 ^ suc (suc (suc (suc (suc (suc (suc (suc m))))))) ≡ 2 ^ m * 256
pow-eight m =
    rw (pow-suc, pow-suc, pow-suc, pow-suc, pow-suc, pow-suc, pow-suc, pow-suc) (omega arith)

pow-bytes : (size : ℕ) → 2 ^ (size * 8) ≡ 256 ^ size
pow-bytes zero = refl
pow-bytes (suc size) =
    let eight : suc size * 8 ≡ suc (suc (suc (suc (suc (suc (suc (suc (size * 8)))))))) =
      omega arith in
    rw (eight, pow-eight, pow-bytes size, pow-suc) refl

-- As many bytes as the encoder takes for the bits of a number hold it.
pub byte_count-bound : (n : ℕ) → n < 256 ^ ((bit_length n + 7) / 8)
byte_count-bound n =
    let bits = bit_length_on-bound n n (omega arith) in
    let more : 2 ^ bit_length n ≤ 2 ^ ((bit_length n + 7) / 8 * 8) =
      pow-le-pow_right (omega arith) (omega arith) in
    rw (← pow-bytes) (omega arith)
