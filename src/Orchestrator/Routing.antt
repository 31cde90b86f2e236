-- ===== src/Orchestrator/Routing.antt =====
-- app/engines/orchestrator.py: which rule applies, and who selects it.
use ekyc.Prelude.{
  String, ◌≡◌, false, Option, none, some, List, arith, str_eq, lookup, lookup_last, lookup-update,
}
use ekyc.Models.{Tenant}
use ekyc.Env.{Env, RuleConfig, object}
use ekyc.Orchestrator.{rules, choose, profile_of, resolve}

-- The effective rule of a code: the configuration's last entry, then the registry's.
abbrev pub effective : List (String × RuleConfig) → String → Option RuleConfig
effective parsed code = elim (lookup_last code parsed) [
  | none ↦ lookup code rules
  | some r ↦ some r
]

module _ (env : Env) (tenant : Tenant) (parsed : List (String × RuleConfig)) where
  -- With a configured registry, `resolve` takes the code that was chosen and gives the profile of the
  -- configuration's entry for it, else of the registry's, and raises if neither has one.
  pub resolve_lem :
      (requested : Option String)
      → env.settings.jurisdictions_json ≡ object parsed
      → let (code, source) = choose env tenant requested in
        resolve env tenant requested ≡ profile_of code source (effective parsed code)
  unfolding resolve
  resolve_lem requested h = rw (h, lookup-update)

  -- A code asserted on the request, if it is not empty, decides alone: two tenants get the same
  -- profile, whatever their defaults are.
  pub resolve-request :
      (other : Tenant) (code : String)
      → str_eq code "" ≡ false
      → resolve env tenant (some code) ≡ resolve env other (some code)
  unfolding resolve
  resolve-request other code h = ground arith
