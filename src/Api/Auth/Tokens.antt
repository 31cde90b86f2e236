-- ===== src/Api/Auth/Tokens.antt =====
-- From the credentials of a tenant to its token, and from the token to the tenant.
use ekyc.Prelude.{ℕ, ◌+◌, ◌<◌, ◌≤◌, String, ◌≡◌, refl, eq_refl, true, some}
use ekyc.Models.{Tenant}
use ekyc.Env.{Env}
use ekyc.Exec.{Db, ok, utcnow, ◌>>=◌}
use ekyc.Store.{find_tenant}
use ekyc.Kyc.Session.{hash_secret, verify_secret}
use ekyc.Api.{bearer, get_current_tenant}
use ekyc.Api.Auth.{find_client, create_access_token, issue_token}

-- What the code relies on: a token that is not from the future and has not expired decodes to the tenant it was made for.
abbrev pub TokensDecode : Env → Type 0
TokensDecode env =
    (secret sub scope typ : String) (iat exp now : ℕ)
    → iat ≤ now
    → now < exp
    → env.jwt_decode secret now (env.jwt_encode secret sub scope typ iat exp) ≡ some (some sub)

module _ (env : Env) (decodes : TokensDecode env) (t : Tenant) (secret : String) (db : Db)
    (client : find_client t.client_id db.tenants ≡ some t) (active : t.active ≡ true)
    (hashed : t.client_secret_hash ≡ hash_secret env secret) where
  -- The token that is issued.
  abbrev pub issued : String
  issued =
      env.jwt_encode env.settings.jwt_secret t.id "kyc" "tenant" db.now
        (db.now + env.settings.access_token_ttl_seconds)

  -- An active tenant gets a token for its client id and secret, and a request whose header carries this token is
  -- made by that tenant from then on until the token expires, whatever else has changed in the database.
  pub get_current_tenant-issue_token :
      (header : String) (later : Db)
      → bearer env (some header) later ≡ (ok issued, later)
      → db.now ≤ later.now
      → later.now < db.now + env.settings.access_token_ttl_seconds
      → find_tenant t.id later.tenants ≡ some t
      → (issue_token env t.client_id secret db
          ≡ (ok (issued, env.settings.access_token_ttl_seconds), db))
        × (get_current_tenant env (some header) later ≡ (ok t, later))
  unfolding issue_token create_access_token get_current_tenant verify_secret utcnow ◌>>=◌
  get_current_tenant-issue_token header later carried since fresh still = (
    rw (client, active, hashed, eq_refl) refl,
    rw
        (
          carried,
          decodes env.settings.jwt_secret t.id "kyc" "tenant" db.now _ later.now since fresh,
          still,
          active,
        )
        refl,
  )
