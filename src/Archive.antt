-- ===== src/Archive.antt =====
-- app/services/archive.py: artifacts written to and read from a vault.
use ekyc.Prelude.{
  Bool, true, false, ℕ, String, not, Option, none, some, [], ◌∷◌, ◌++◌, length, if◌then◌else◌,
  or_else,
}
use ekyc.Enums.{ArtifactKind, artifact_kind_str}
use ekyc.Models.{Artifact}
use ekyc.Env.{Env, Bytes}
use ekyc.Exec.{
  Exn, file_not_found, storage_error, Exec, pure, lift, raise_if, or_raise, draw, utcnow, ◌>>=◌,
  ◌>>◌,
}
use ekyc.Orchestrator.{truthy}
use ekyc.Storage.{get_vault, build_key}
use ekyc.Store.{modify_artifacts}
use ekyc.Vault.{seal, open_blob}

-- What a read of a blob that fails raises.
abbrev pub read_error : Bool → Exn
read_error true = file_not_found
read_error false = storage_error

module _ (env : Env) where
  abbrev pub payload_of : String → Bytes → Exec Bytes
  payload_of tenant_id plain =
      if env.settings.storage_encryption then seal env tenant_id plain else pure plain

  abbrev pub new_artifact :
      String
      → Option String
      → ArtifactKind
      → String
      → Bytes
      → String
      → Option String
      → ℕ
      → ℕ
      → Artifact
  new_artifact tenant_id session_id kind key plain content_type profile id now = record {
    id = id;
    tenant_id = tenant_id;
    session_id = session_id;
    kind = kind;
    storage_key = key;
    vault_profile = or_else (truthy profile) "default";
    content_type = content_type;
    size_bytes = length plain;
    sha256 = env.sha256_bytes plain;
    created_at = now;
    purged_at = none;
  }

  unfoldable pub store_artifact :
      (tenant_id : String)
      → (session_id : Option String) → ArtifactKind
      → (filename : String) → Bytes
      → (content_type : String) → (vault_profile : Option String) → Exec Artifact
  store_artifact tenant_id session_id kind filename plain content_type profile = do
    now ← utcnow
    let key =
        build_key env (env.day_text now) tenant_id (or_else (truthy session_id) "unscoped")
          (artifact_kind_str kind) filename
    payload ← payload_of tenant_id plain
    backend ← lift (get_vault env profile)
    request ← draw
    raise_if (not (env.storage_put request backend key payload)) storage_error
    id ← draw
    let a = new_artifact tenant_id session_id kind key plain content_type profile id now
    modify_artifacts (λ rows. rows ++ a ∷ [])
    pure a

  unfoldable pub read_artifact : Artifact → Exec Bytes
  read_artifact a = do
    backend ← lift (get_vault env (some a.vault_profile))
    request ← draw
    blob ←
        or_raise (env.storage_get request backend a.storage_key)
          (read_error (env.storage_absent request backend a.storage_key))
    lift (open_blob env a.tenant_id blob)
