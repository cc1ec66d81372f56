-- ===== src/Rules/Examples.antt =====
-- The theorems on the rules, with engines that are the compiled rules themselves.
use llm_security_audit_gatew.Base.{
  String, pos, List, [], ◌∷◌, none, some, false, ◌≡◌, refl, arith, eq_iff,
}
use llm_security_audit_gatew.Base.Result.{Result, ok, err}
use llm_security_audit_gatew.Audit.{Input, Verdict}
use llm_security_audit_gatew.Rules.Engine.{Definition, CompiledRule, with_defaults, replace}
use llm_security_audit_gatew.Rules.Isolation.{Operation, refreshed, marked, run, run_isolated}
use llm_security_audit_gatew.Rules.Registry.{Registry, tenant_scope, engine_for}

-- A compiler of expressions that refuses all of them.
abbrev no_regex : String → Result String String
no_regex _ = err "regex"

abbrev secret : Definition
secret = record {
  id = "1";
  name = "secret";
  pattern = "secret";
  severity = "";
  action = "";
  weight = pos 0;
  regex = false;
}

abbrev Engine : Type 0
Engine = List (CompiledRule String no_regex)

abbrev score_nothing : Engine → Input → Verdict
score_nothing _ _ = record { score = pos 0; matches = [] }

abbrev fresh : Registry Engine
fresh = record {
  global = [];
  global_version = "bootstrap";
  global_source = "demo";
  global_stale = false;
  tenants = [];
  resolved = [];
}

abbrev others : List (Operation (replace String no_regex) score_nothing)
others = refreshed (tenant_scope "b") (some (ok (secret ∷ [], "v2"))) ∷ marked ∷ []

run_isolated_example :
    engine_for
      (replace String no_regex)
      score_nothing
      "a"
      (run (replace String no_regex) score_nothing others fresh)
    ≡ engine_for (replace String no_regex) score_nothing "a" fresh
run_isolated_example =
    run_isolated (replace String no_regex) score_nothing "a" others fresh
      ((λ h. ground (arith, eq_iff "b" "a")), (tt, tt))

abbrev compiled_secret : CompiledRule String no_regex
compiled_secret = record { definition = with_defaults String no_regex secret; re = none }

compiles : replace String no_regex (secret ∷ []) ≡ ok (compiled_secret ∷ [])
unfolding replace
compiles = refl
