-- ===== src/Storage.antt =====
-- app/services/storage.py: which backend a vault profile names, and the keys of its blobs. What a
-- backend does with a blob is a request of `ekyc.Env`; the caches of backends are not kept.
use ekyc.Prelude.{
  String, concat, Option, none, some, List, [], if◌then◌else◌, str_eq, lookup, or_else,
}
use ekyc.Env.{
  Env, VaultConfig, Loaded, unset, not_json, not_object, object, Backend, local_storage, s3_storage,
}
use ekyc.Exec.{Result, ok, err, unknown_vault, key_error, value_error}
use ekyc.Orchestrator.{truthy}

-- `get_storage`
abbrev pub get_storage : Env → Backend
get_storage env =
    if str_eq env.settings.storage_backend "s3"
    then s3_storage env.settings.s3_bucket env.settings.s3_endpoint_url env.settings.s3_region
    else local_storage (env.expanduser env.settings.storage_root)

abbrev pub vault_configs : Loaded VaultConfig → Result (List (String × VaultConfig))
vault_configs unset = ok []
vault_configs not_json = err value_error
vault_configs not_object = err unknown_vault
vault_configs (object parsed) = ok parsed

-- `LocalStorage(cfg["root"])`
abbrev pub local_of : Option String → Result Backend
local_of none = err key_error
local_of (some root) = ok (local_storage root)

abbrev pub backend_of : VaultConfig → Result Backend
backend_of cfg =
    if str_eq (or_else cfg.backend "local") "s3"
    then ok
        (s3_storage (or_else cfg.bucket "") (or_else cfg.endpoint_url "") (or_else cfg.region ""))
    else local_of cfg.root

abbrev pub named : String → Result (List (String × VaultConfig)) → Result Backend
named name (err e) = err e
named name (ok configs) = elim (lookup name configs) [
  | none ↦ err unknown_vault
  | some cfg ↦ backend_of cfg
]

unfoldable pub get_vault : Env → Option String → Result Backend
get_vault env profile =
    if str_eq (or_else (truthy profile) "default") "default"
    then ok (get_storage env)
    else named (or_else (truthy profile) "default") (vault_configs env.settings.vaults_json)

unfoldable pub build_key : Env → String → String → String → String → String → String
build_key env day tenant_id session_id kind filename = concat "tenant/" (
    concat tenant_id (
      concat "/" (
        concat day (
          concat "/"
            (concat session_id (concat "/" (concat (env.lower kind) (concat "/" filename))))))))
