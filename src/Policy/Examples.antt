-- ===== src/Policy/Examples.antt =====
-- The theorems on the policy, at concrete policies.
use Prim.Native.String.{◌++◌}
use llm_security_audit_gatew.Base.{max, pos, negsuc, List, [], ◌∷◌, some, ◌≡◌, ◌⊎◌, refl}
use llm_security_audit_gatew.Base.Result.{ok, err}
use llm_security_audit_gatew.Audit.{Verdict}
use llm_security_audit_gatew.Policy.Decisions.{
  IsDecision, is_monitor, rank, strongest, elevate-rank,
}
use llm_security_audit_gatew.Policy.Publish.{
  IsActive, Update, refreshed, marked, run, resolve-IsActive,
}
use llm_security_audit_gatew.Policy.Resolver.{new_resolver, resolve}
use llm_security_audit_gatew.Policy.Resolution.{Picked, NoneAbove, resolve_best}
use llm_security_audit_gatew.Policy.{
  Policy, default_policy, monitor, redact, normalized, elevate, raised,
}

abbrev tenant_policy : Policy
tenant_policy = record default_policy {
  scope = "tenant:acme";
  monitor_at = pos 10;
  intervention_at = pos 40;
  intervention_action = redact;
}

abbrev hit : Verdict
hit = record {
  score = pos 45;
  matches =
      record {
        rule_id = "r1";
        name = "secret";
        severity = "high";
        action = "redact";
        weight = pos 45;
        evidence = "key";
      }
      ∷ [];
}

abbrev updates : List Update
updates =
    refreshed (some (ok (default_policy ∷ tenant_policy ∷ [])))
    ∷ refreshed (some (err "down"))
    ∷ marked
    ∷ []

elevate-rank_example :
    IsDecision (elevate hit monitor)
    × (rank (elevate hit monitor) ≡ max (rank monitor) (strongest hit.matches))
elevate-rank_example = elevate-rank hit is_monitor

elevated : elevate hit monitor ≡ redact
unfolding elevate raised
elevated = refl

resolve-IsActive_example :
    IsActive (resolve (run updates new_resolver) "acme" "/v1/responses" "request")
resolve-IsActive_example = resolve-IsActive updates "acme" "/v1/responses" "request"

resolve_best_example :
    ((c : Policy) × (resolve (run updates new_resolver) "acme" "*" "request" ≡ normalized c)
      × Picked "acme" "*" "request" (negsuc 0) c (run updates new_resolver).policies
      × ((c.scope ≡ "tenant:" ++ "acme") ⊎ (c.scope ≡ "global"))
      × ((c.route_path ≡ "*") ⊎ (c.route_path ≡ "*")))
    ⊎ ((resolve (run updates new_resolver) "acme" "*" "request" ≡ normalized default_policy)
        × NoneAbove "acme" "*" "request" (negsuc 0) (run updates new_resolver).policies)
resolve_best_example = resolve_best "acme" "*" "request" (run updates new_resolver)
