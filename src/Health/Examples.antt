-- ===== src/Health/Examples.antt =====
-- internal/health/health.go: readiness of a gateway with two required components.
use llm_security_audit_gatew.Base.{pos, [], ◌∷◌, refl, true, lookup, insert}
use llm_security_audit_gatew.Health.{Manager, healthy, probe_now, ready}
use llm_security_audit_gatew.Health.Readiness.{Ok, probe_now-ready}

abbrev gateway : Manager
gateway = record {
  probes = ("postgres", true) ∷ ("rules", true) ∷ [];
  states = [];
  interval = pos 5;
  timeout = pos 1;
}

probe_now-ready_example : Ok healthy
unfolding lookup insert probe_now ready
probe_now-ready_example =
    probe_now-ready (λ name. healthy) 9 gateway "rules" (refl, (refl, tt)) refl refl
