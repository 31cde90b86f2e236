-- ===== src/Vault/Seal.antt =====
-- app/services/vault.py: `open` after `seal`.
use ekyc.Prelude.{
  ℕ, ◌+◌, ◌/◌, ◌%◌, ◌^◌, ◌<◌, String, concat, ◌≡◌, refl, true, false, some, List, [], ◌∷◌, ◌++◌,
  length, take, drop, ltb, arith, take-append, drop-append, length-append,
}
use ekyc.Env.{Env, Bytes}
use ekyc.Exec.{Db, ok, lift, draw, ◌>>=◌}
use ekyc.Vault.{
  nonce_len, key_len, is_sealed, header, data_key, seal, sealed, open_blob, from_big_endian, magic,
}

-- What the code relies on: AES-GCM opens what it sealed, under the same nonce and additional data,
-- its output is 16 bytes longer than its input, and `os.urandom` returns as many bytes as asked for.
pub record Primitives (env : Env) : Type 0 where
  pub opens :
      (key nonce plain aad : Bytes)
      → env.aes_decrypt key nonce (env.aes_encrypt key nonce plain aad) aad ≡ some plain
  pub tag :
      (key nonce plain aad : Bytes)
      → length (env.aes_encrypt key nonce plain aad) ≡ length plain + 16
  pub random_length : (n size : ℕ) → length (env.urandom n size) ≡ size

-- The four bytes of a key version show it.
unpack-pack_u32 :
    (v : ℕ)
    → v < 2 ^ 32
    → from_big_endian 0 (v / 2 ^ 24 ∷ v / 2 ^ 16 % 256 ∷ v / 2 ^ 8 % 256 ∷ v % 256 ∷ []) ≡ v
unpack-pack_u32 v h = omega arith

take_at : {A : Type 0} (n : ℕ) (xs ys : List A) → length xs ≡ n → take n (xs ++ ys) ≡ xs
take_at n xs ys h = rw (← h) (take-append xs ys)

drop_at : {A : Type 0} (n : ℕ) (xs ys : List A) → length xs ≡ n → drop n (xs ++ ys) ≡ ys
drop_at n xs ys h = rw (← h) (drop-append xs ys)

module _ (env : Env) (primitives : Primitives env) (tenant_id : String) (plain : Bytes)
    (db : Db) where
  open primitives use {opens, tag, random_length}

  abbrev head_of : ℕ → Bytes
  head_of v = magic ++ (1 ∷ v / 2 ^ 24 ∷ v / 2 ^ 16 % 256 ∷ v / 2 ^ 8 % 256 ∷ v % 256 ∷ [])

  -- What `open` reads out of a sealed blob.
  sealed_parts :
      (v : ℕ) (key nonce : Bytes)
      → length nonce ≡ nonce_len
      → let blob = sealed env tenant_id plain (head_of v) key nonce in
        (ltb (length blob) (12 + nonce_len + 16) ≡ false)
        × (take nonce_len (drop 12 blob) ≡ nonce)
        × (drop nonce_len (drop 12 blob)
            ≡ env.aes_encrypt key nonce plain (head_of v ++ env.utf8 tenant_id))
  sealed_parts v key nonce n =
      let cipher = env.aes_encrypt key nonce plain (head_of v ++ env.utf8 tenant_id) in
      let total : length (nonce ++ cipher) ≡ 12 + (length plain + 16) = omega (
        arith,
        length-append nonce cipher,
        n,
        tag key nonce plain (head_of v ++ env.utf8 tenant_id),
      ) in
      (ground arith, take_at nonce_len nonce cipher n, drop_at nonce_len nonce cipher n)

  -- With the local key provider, a key of 32 bytes and a key version of 32 bits, `seal` returns a
  -- blob that is marked as sealed, and `open` under the same tenant gives the plaintext back, also
  -- when the current key version has changed to another one since.
  pub open_blob-seal :
      (later_version : ℕ)
      → env.settings.kms_backend ≡ "local"
      → length env.master_key ≡ key_len
      → env.settings.kek_version < 2 ^ 32
      → (blob : Bytes) × ((seal env tenant_id plain db).0 ≡ ok blob)
        × (is_sealed blob ≡ true)
        × (open_blob
              (record env { settings = record env.settings { kek_version = later_version } })
              tenant_id
              blob
            ≡ ok plain)
  unfolding seal ◌>>=◌ lift draw header open_blob data_key
  open_blob-seal later_version backend master small =
      let v = env.settings.kek_version in
      let fits : ltb v (2 ^ 32) ≡ true = ground arith in
      let key =
        env.hkdf env.master_key
          (concat "ekyc-vault:" (concat tenant_id (concat ":" (env.str_of v)))) in
      let nonce = env.urandom db.serial nonce_len in
      let (long, own_nonce, own_cipher) =
        sealed_parts v key nonce (random_length db.serial nonce_len) in
      (
        sealed env tenant_id plain (head_of v) key nonce,
        rw (fits, backend, master) refl,
        refl,
        rw (long, unpack-pack_u32 v small, backend, master, own_nonce, own_cipher, opens) refl,
      )
