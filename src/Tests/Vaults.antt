-- ===== src/Tests/Vaults.antt =====
-- The vault at a concrete input.
use ekyc.Prelude.{
  ◌-◌, ◌≡◌, refl, ap, true, some, [], ◌∷◌, ◌++◌, length, take, length-append, take-append, arith, ℕ,
  zero, suc,
}
use ekyc.Env.{Bytes}
use ekyc.Exec.{ok}
use ekyc.Vault.{seal, is_sealed, open_blob}
use ekyc.Vault.Seal.{Primitives, open_blob-seal}
use ekyc.Tests.Fixtures.{env, empty_db, replicate_byte}

length-replicate_byte : (n b : ℕ) → length (replicate_byte n b) ≡ n
length-replicate_byte zero b = refl
length-replicate_byte (suc n) b = ap suc (length-replicate_byte n b)

without_tag :
    (plain tag : Bytes) → length tag ≡ 16 → take (length (plain ++ tag) - 16) (plain ++ tag) ≡ plain
without_tag plain tag h =
    let size : length (plain ++ tag) - 16 ≡ length plain = omega (arith, length-append plain tag) in
    rw size (take-append plain tag)

primitives : Primitives env
primitives = record {
  opens = λ key nonce plain aad. ap some (without_tag plain (replicate_byte 16 0) refl);
  tag = λ key nonce plain aad. length-append plain (replicate_byte 16 0);
  random_length = λ n size. length-replicate_byte size _;
}

open_blob-seal_example :
    (blob : Bytes) × ((seal env "t1" (1 ∷ 2 ∷ 3 ∷ []) empty_db).0 ≡ ok blob)
    × (is_sealed blob ≡ true)
    × (open_blob (record env { settings = record env.settings { kek_version = 2 } }) "t1" blob
        ≡ ok (1 ∷ 2 ∷ 3 ∷ []))
open_blob-seal_example =
    open_blob-seal env primitives "t1" (1 ∷ 2 ∷ 3 ∷ []) empty_db 2 refl refl (omega arith)
