-- ===== src/Orchestrator.antt =====
-- app/engines/orchestrator.py: from a jurisdiction to vault, retention and trust services.
pub mod Routing
use ekyc.Prelude.{
  ℕ, String, Bool, Option, none, some, List, [], ◌∷◌, if◌then◌else◌, str_eq, or_else, lookup,
  update,
}
use ekyc.Models.{Tenant}
use ekyc.Env.{Env, RuleConfig, Loaded, unset, not_json, not_object, object}
use ekyc.Exec.{Exn, Result, ok, err, unknown_jurisdiction, value_error}

pub record RegulatoryProfile : Type 0 where
  pub jurisdiction : String
  pub vault_profile : String
  pub retention_days : ℕ
  pub tsa_policy : String
  pub signature_level : String
  pub source : String

abbrev rule : String → RuleConfig
rule tsa = record {
  vault_profile = some "default";
  retention_days = some 3650;
  tsa_policy = some tsa;
  signature_level = some "platform";
}

-- `_RULES`
abbrev pub rules : List (String × RuleConfig)
rules = ("GLOBAL", rule "internal") ∷ ("EU", rule "qualified") ∷ ("FR", rule "qualified") ∷ []

-- `_env_rules`
abbrev pub env_rules : Loaded RuleConfig → Result (List (String × RuleConfig))
env_rules unset = ok []
env_rules not_json = err value_error
env_rules not_object = err value_error
env_rules (object parsed) = ok parsed

-- `jurisdictions`: the registry overlaid by the configuration.
abbrev pub merged : Result (List (String × RuleConfig)) → Result (List (String × RuleConfig))
merged (ok parsed) = ok (update rules parsed)
merged (err e) = err e

abbrev pub jurisdictions : Env → Result (List (String × RuleConfig))
jurisdictions env = merged (env_rules env.settings.jurisdictions_json)

-- A text that `if` takes for true.
abbrev pub truthy : Option String → Option String
truthy none = none
truthy (some s) = if str_eq s "" then none else some s

-- The code and where it came from.
abbrev pub choose : Env → Tenant → Option String → String × String
choose env tenant requested = elim (truthy requested) [
  | some code ↦ (env.upper code, "request")
  | none ↦ elim (truthy tenant.default_jurisdiction) [
    | some code ↦ (env.upper code, "tenant_default")
    | none ↦ (env.upper env.settings.default_jurisdiction, "platform_default")
  ]
]

abbrev pub profile_of : String → String → Option RuleConfig → Result RegulatoryProfile
profile_of code source none = err unknown_jurisdiction
profile_of code source (some r) = ok (record {
  jurisdiction = code;
  vault_profile = or_else r.vault_profile "default";
  retention_days = or_else r.retention_days 3650;
  tsa_policy = or_else r.tsa_policy "internal";
  signature_level = or_else r.signature_level "platform";
  source = source;
})

abbrev look_up : String × String → Result (List (String × RuleConfig)) → Result RegulatoryProfile
look_up (code, source) (ok table) = profile_of code source (lookup code table)
look_up (code, source) (err e) = err e

unfoldable pub resolve : Env → Tenant → Option String → Result RegulatoryProfile
resolve env tenant requested = look_up (choose env tenant requested) (jurisdictions env)
