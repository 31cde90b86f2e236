-- ===== src/Tsa/Authorities.antt =====
-- app/engines/tsa.py: the timestamp authorities, the choice of one and its tokens. The timeouts of the
-- HTTP client and the details of a token are not modelled.
use ekyc.Prelude.{
  String, concat, Bool, true, false, ◌&&◌, Option, none, some, List, [], ◌∷◌, if◌then◌else◌, str_eq,
  lookup, insert, or_else, first,
}
use ekyc.Env.{
  Env, Bytes, Settings, TsaConfig, Loaded, unset, not_json, not_object, object, HttpReply,
  no_response, response,
}
use ekyc.Exec.{
  Db, Result, ok, err, unknown_tsa, attribute_error, key_error, value_error, http_error, Exec, pure,
  raise, lift, or_raise, draw, utcnow, ◌>>=◌,
}
use ekyc.Orchestrator.{truthy}
use ekyc.Asn1.{build_timestamp_request}
use ekyc.Workers.Delivery.{is_success}

pub record TsaProvider : Type 0 where
  pub name : String
  pub mode : String
  pub endpoint : Option String
  pub qualified : Bool
  pub auth_header : Option String
  pub trusted_ca_path : Option String

pub record TimestampToken : Type 0 where
  pub token : Bytes
  pub authority : String
  pub issued_at : String
  pub qualified : Bool
  pub provider : String

-- `_INTERNAL`
abbrev pub internal_provider : TsaProvider
internal_provider = record {
  name = "internal";
  mode = "internal";
  endpoint = none;
  qualified = false;
  auth_header = none;
  trusted_ca_path = none;
}

abbrev pub from_url : String → TsaProvider
from_url url = record internal_provider {
  name = "external";
  mode = "external";
  endpoint = some url;
  qualified = true;
}

abbrev pub from_config : (name endpoint : String) → TsaConfig → TsaProvider
from_config name endpoint cfg = record {
  name = name;
  mode = "external";
  endpoint = some endpoint;
  qualified = or_else cfg.qualified false;
  auth_header = cfg.auth_header;
  trusted_ca_path = cfg.trusted_ca_path;
}

abbrev pub Registry : Type 0
Registry = List (String × TsaProvider)

-- `cfg["endpoint"]` of one authority, before the others.
abbrev pub add_endpoint :
    String → TsaConfig → Option String → (Registry → Result Registry) → Registry → Result Registry
add_endpoint name cfg none others registry = err key_error
add_endpoint name cfg (some endpoint) others registry =
    others (insert name (from_config name endpoint cfg) registry)

abbrev pub add_configured : List (String × TsaConfig) → Registry → Result Registry
add_configured [] registry = ok registry
add_configured ((name, cfg) ∷ rest) registry =
    add_endpoint name cfg cfg.endpoint (add_configured rest) registry

abbrev pub with_configured : Loaded TsaConfig → Registry → Result Registry
with_configured unset registry = ok registry
with_configured not_json registry = err value_error
with_configured not_object registry = err attribute_error
with_configured (object configs) registry = add_configured configs registry

abbrev pub with_url : Option String → Registry
with_url none = ("internal", internal_provider) ∷ []
with_url (some url) = ("internal", internal_provider) ∷ ("external", from_url url) ∷ []

unfoldable pub providers : Settings → Result Registry
providers settings = with_configured settings.tsas_json (with_url (truthy (some settings.tsa_url)))

abbrev pub is_qualified : String × TsaProvider → Bool
is_qualified (name, provider) = str_eq provider.mode "external" && provider.qualified

abbrev pub or_internal : Option (String × TsaProvider) → TsaProvider
or_internal none = internal_provider
or_internal (some (name, provider)) = provider

abbrev pub known_provider : Option TsaProvider → Result TsaProvider
known_provider none = err unknown_tsa
known_provider (some provider) = ok provider

abbrev pub pick : String → Result Registry → Result TsaProvider
pick policy (err e) = err e
pick policy (ok registry) =
    if str_eq policy "internal"
    then ok internal_provider
    else if str_eq policy "qualified"
    then ok (or_internal (first is_qualified registry))
    else known_provider (lookup policy registry)

unfoldable pub resolve_policy : Settings → String → Result TsaProvider
resolve_policy settings policy = pick policy (providers settings)

abbrev pub auth_headers : Option String → List (String × String)
auth_headers none = []
auth_headers (some value) = ("Authorization", value) ∷ []

module _ (env : Env) where
  -- A response that `raise_for_status` lets pass.
  abbrev pub accepted : HttpReply → Exec Bytes
  accepted no_response = raise http_error
  accepted (response code body) = if is_success code then pure body else raise http_error

  unfoldable pub token_of : TsaProvider → String → HttpReply → Exec TimestampToken
  token_of provider endpoint reply = do
    body ← accepted reply
    now ← utcnow
    pure (record {
      token = body;
      authority = endpoint;
      issued_at = env.isoformat now;
      qualified = provider.qualified;
      provider = provider.name;
    })

  abbrev pub request_headers : TsaProvider → List (String × String)
  request_headers provider =
      ("Content-Type", "application/timestamp-query") ∷ auth_headers (truthy provider.auth_header)

  -- `_external_timestamp`
  unfoldable pub external_timestamp : String → TsaProvider → String → Exec TimestampToken
  external_timestamp digest provider endpoint = do
    plain ← or_raise (env.fromhex digest) value_error
    request ← build_timestamp_request env plain
    n ← draw
    token_of provider endpoint (env.http_post n endpoint request (request_headers provider))

  -- `_internal_timestamp`
  unfoldable pub internal_timestamp : String → Exec TimestampToken
  internal_timestamp digest = do
    now ← utcnow
    let issued_at = env.isoformat now
    pure (record {
      token = env.b64encode (env.rsa_sign (env.utf8 (concat digest (concat "|" issued_at))));
      authority = "local-soft-timestamp";
      issued_at = issued_at;
      qualified = false;
      provider = "internal";
    })

  -- `except Exception`: the internal token instead.
  abbrev pub or_soft : String → Result TimestampToken × Db → Result TimestampToken × Db
  or_soft digest (ok token, db) = (ok token, db)
  or_soft digest (err e, db) = internal_timestamp digest db

  abbrev pub timestamp_at : String → TsaProvider → Option String → Exec TimestampToken
  timestamp_at digest provider none db = internal_timestamp digest db
  timestamp_at digest provider (some endpoint) db =
      if str_eq provider.mode "external"
      then or_soft digest (external_timestamp digest provider endpoint db)
      else internal_timestamp digest db

  unfoldable pub timestamp : String → String → Exec TimestampToken
  timestamp digest policy = do
    provider ← lift (resolve_policy env.settings policy)
    timestamp_at digest provider (truthy provider.endpoint)
