-- ===== src/Audit/Examples.antt =====
-- The theorems on the circuit breaker, at a breaker with a limit of two failures.
use llm_security_audit_gatew.Base.{
  ◌≤◌, ◌<◌, ℕ, ◌+◌, ◌%◌, pos, List, [], ◌∷◌, true, some, ◌≡◌, refl, arith, ◌==◌, if◌then◌else◌,
}
use llm_security_audit_gatew.Audit.{Event, redact_evidence}
use llm_security_audit_gatew.Audit.Redaction.{Redacted, redact_evidence-Redacted}
use llm_security_audit_gatew.Audit.Circuit.{
  CircuitBreaker, new_circuit_breaker, Outcome, success, canceled, failed, settle, Callers,
  admitted, acquired, here, next,
}
use llm_security_audit_gatew.Audit.CircuitLaws.{Reach-Inv, settle_all, streak, settle_opens, Call}
use llm_security_audit_gatew.Audit.{ModelResult}

abbrev unknown : ModelResult
unknown = record {
  verdict = "unknown";
  score = pos 0;
  categories = [];
  evidence = "";
  model = "m";
  version = "";
  latency = 0;
}

abbrev two_failures : CircuitBreaker
two_failures = new_circuit_breaker (pos 2) (pos 1) (pos 100)

abbrev seen_so_far : List (ℕ × Outcome)
seen_so_far =
    (1, failed unknown "timeout")
    ∷ (2, success unknown)
    ∷ (3, failed unknown "timeout")
    ∷ (4, canceled unknown)
    ∷ []

abbrev idle : Callers
idle = record { breaker = two_failures; waiting = 0 }

Reach-Inv_example :
    (1 ≤ two_failures.concurrency) × (two_failures.failures < two_failures.max_failures)
unfolding new_circuit_breaker
Reach-Inv_example = Reach-Inv (pos 2) (pos 1) (pos 100) (
    next (next here (admitted idle 7 (omega arith)))
      (acquired (record idle { waiting = 1 }) (omega arith) (omega arith)))

settle_opens_example :
    (settle 5 (failed unknown "timeout") (settle_all seen_so_far two_failures)).opened_until ≡ (
      if ((streak 0 seen_so_far + 1) % two_failures.max_failures) == 0
      then 5 + two_failures.open_for
      else (settle_all seen_so_far two_failures).opened_until)
settle_opens_example = settle_opens (pos 2) (pos 1) (pos 100) seen_so_far 5 unknown "timeout"

opens_at :
    (settle 5 (failed unknown "timeout") (settle_all seen_so_far two_failures)).opened_until ≡ 105
unfolding settle settle_all new_circuit_breaker
opens_at = refl

abbrev open_breaker : CircuitBreaker
open_breaker = record two_failures { opened_until = 105 }

abbrev calls : List Call
calls =
    record { now = 6; waited = true; outcome = success unknown; finished = 9 }
    ∷ record { now = 104; waited = true; outcome = success unknown; finished = 104 }
    ∷ []

abbrev quoting : Event
quoting = record {
  schema_version = "2";
  event_id = "e1";
  event_time = 7;
  request_id = "r1";
  tenant_id = "acme";
  direction = "request";
  path = "/v1/completions";
  model = "m";
  decision = "redact";
  risk_score = pos 90;
  rule_version = "v1";
  api_key_id = "k1";
  policy_id = "";
  policy_revision = pos 1;
  matches = [];
  auditor = some (record {
    verdict = "block";
    score = pos 90;
    categories = [];
    evidence = "my password is";
    model = "m";
    version = "1";
    latency = 1;
  });
  auditor_error = "";
  latency_ms = pos 1;
  body_bytes = pos 2;
  content_sha256 = "00";
  metadata = ("sse", "true") ∷ [];
}

redact_evidence-Redacted_example : Redacted quoting (redact_evidence quoting)
redact_evidence-Redacted_example = redact_evidence-Redacted quoting
