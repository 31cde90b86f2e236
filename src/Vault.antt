-- ===== src/Vault.antt =====
-- app/services/vault.py: envelope encryption of archived artifacts.
pub mod Seal
use ekyc.Prelude.{
  ℕ, ◌+◌, ◌*◌, ◌/◌, ◌%◌, ◌^◌, String, concat, Bool, true, false, not, ◌&&◌, Option, none, some,
  List, [], ◌∷◌, ◌++◌, length, take, drop, ltb, ◌==◌, if◌then◌else◌, str_eq,
}
use ekyc.Env.{Env, Bytes, Settings}
use ekyc.Exec.{Result, ok, err, vault_error, struct_error, Exec, pure, lift, draw, ◌>>=◌}

-- `_MAGIC`, "EKYCENC"
abbrev pub magic : Bytes
magic = 69 ∷ 75 ∷ 89 ∷ 67 ∷ 69 ∷ 78 ∷ 67 ∷ []

abbrev pub format_version : ℕ
format_version = 1

abbrev pub nonce_len : ℕ
nonce_len = 12

abbrev pub key_len : ℕ
key_len = 32

-- `data.startswith(prefix)`
abbrev pub starts_with : Bytes → Bytes → Bool
starts_with [] plain = true
starts_with (b ∷ bs) [] = false
starts_with (b ∷ bs) (d ∷ ds) = b == d && starts_with bs ds

-- `struct.pack(">I", n)` and `struct.unpack`
abbrev pub pack_u32 : ℕ → Result Bytes
pack_u32 n =
    if ltb n (2 ^ 32)
    then ok (n / 2 ^ 24 ∷ n / 2 ^ 16 % 256 ∷ n / 2 ^ 8 % 256 ∷ n % 256 ∷ [])
    else err struct_error

abbrev pub from_big_endian : ℕ → Bytes → ℕ
from_big_endian acc [] = acc
from_big_endian acc (b ∷ bs) = from_big_endian (acc * 256 + b) bs

abbrev pub prefixed : Result Bytes → Result Bytes
prefixed (ok version) = ok (magic ++ (format_version ∷ version))
prefixed (err e) = err e

unfoldable pub header : ℕ → Result Bytes
header key_version = prefixed (pack_u32 key_version)

abbrev pub is_sealed : Bytes → Bool
is_sealed blob = starts_with magic blob

module _ (env : Env) where
  -- `get_key_provider().data_key(tenant_id, version)`
  unfoldable pub data_key : String → ℕ → Result Bytes
  data_key tenant_id version =
      if not (str_eq env.settings.kms_backend "local")
      then err vault_error
      else if not (length env.master_key == key_len)
      then err vault_error
      else ok (
          env.hkdf env.master_key
            (concat "ekyc-vault:" (concat tenant_id (concat ":" (env.str_of version)))))

  abbrev pub sealed : String → Bytes → Bytes → Bytes → Bytes → Bytes
  sealed tenant_id plain head key nonce =
      head ++ (nonce ++ env.aes_encrypt key nonce plain (head ++ env.utf8 tenant_id))

  unfoldable pub seal : String → Bytes → Exec Bytes
  unfolding header data_key
  seal tenant_id plain = do
    head ← lift (header env.settings.kek_version)
    key ← lift (data_key tenant_id env.settings.kek_version)
    n ← draw
    pure (sealed tenant_id plain head key (env.urandom n nonce_len))

  abbrev pub decrypted : Option Bytes → Result Bytes
  decrypted none = err vault_error
  decrypted (some plain) = ok plain

  -- The ciphertext behind a header that was accepted.
  abbrev pub open_with : String → Bytes → Result Bytes → Result Bytes
  open_with tenant_id blob (err e) = err e
  open_with tenant_id blob (ok key) = decrypted (
      env.aes_decrypt key (take nonce_len (drop 12 blob)) (drop nonce_len (drop 12 blob))
        (take 12 blob ++ env.utf8 tenant_id))

  -- `blob[len(_MAGIC)]`
  abbrev pub format_of : Bytes → ℕ
  format_of blob = from_big_endian 0 (take 1 (drop 7 blob))

  -- `open`; the header is 12 bytes long.
  unfoldable pub open_blob : String → Bytes → Result Bytes
  unfolding data_key
  open_blob tenant_id blob =
      if not (is_sealed blob)
      then ok blob
      else if ltb (length blob) (12 + nonce_len + 16)
      then err vault_error
      else if not (format_of blob == format_version)
      then err vault_error
      else open_with tenant_id blob (data_key tenant_id (from_big_endian 0 (take 4 (drop 8 blob))))
