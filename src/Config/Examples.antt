-- ===== src/Config/Examples.antt =====
-- The theorems on start-up, in an environment that names a database and nothing else.
use llm_security_audit_gatew.Base.{
  [], ◌∷◌, none, true, false, ◌≡◌, ◌≢◌, refl, inr, str_eq, if◌then◌else◌,
}
use llm_security_audit_gatew.Base.Result.{ok}
use llm_security_audit_gatew.Config.{check, validate, schemeless}
use llm_security_audit_gatew.Config.Load.{
  Host, load, configured, errors, env_int, env_bool, env, env_list, list_parts,
}
use llm_security_audit_gatew.Config.Startup.{validate_production, Says, load_switches}

abbrev host : Host
host = record {
  getenv = λ key. if str_eq key "POSTGRES_URL" then "postgres://db" else "";
  atoi = λ _. none;
  parse_bool = λ _. none;
  to_lower = λ s. s;
  trim_space = λ s. s;
  split_commas = λ s. s ∷ [];
  quote = λ s. s;
}

loads : load host ≡ ok (configured host)
unfolding load errors env_int env_bool
loads = refl

accepted : validate (λ _ _. true) (configured host) ≡ none
unfolding validate check schemeless configured env env_list list_parts env_bool
accepted = refl

environment : (configured host).environment ≡ "production"
unfolding configured env
environment = refl

validate_production_example :
    ((configured host).upstream_allow_private_networks ≡ false)
    × ((configured host).allow_demo_bootstrap ≡ false)
    × ((configured host).postgres_url ≢ "")
validate_production_example =
    validate_production (λ _ _. true) (configured host) accepted (inr environment)

load_switches_example :
    Says host "ALLOW_DEMO_BOOTSTRAP_RULES" false (configured host).allow_demo_bootstrap
    × Says host "UPSTREAM_ALLOW_PRIVATE_NETWORKS" false
        (configured host).upstream_allow_private_networks
    × Says host "AUDIT_ENABLED" true (configured host).audit_enabled
    × Says host "AUDIT_FAIL_CLOSED" false (configured host).fail_closed
load_switches_example = load_switches host (configured host) loads
