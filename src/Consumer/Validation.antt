-- ===== src/Consumer/Validation.antt =====
-- internal/clickhouse/store.go: `ValidateEvent`. Parsing a UUID is a parameter, and so is a text's
-- size in bytes. An instant 0 is Go's zero time.
use llm_security_audit_gatew.Base.{
  ℕ, String, pos, ltb_ℤ, ltb, Option, none, some, Bool, not, ◌&&◌, ◌||◌, ◌==◌, str_eq,
  if◌then◌else◌,
}
use llm_security_audit_gatew.Audit.{Event}

module _ (is_uuid : String → Bool) (size : String → ℕ) where
  unfoldable pub missing_fields : Event → Bool
  missing_fields e =
      not (str_eq e.schema_version "2")
      || str_eq e.event_id ""
      || e.event_time == 0
      || str_eq e.request_id ""
      || str_eq e.tenant_id ""
      || str_eq e.path ""
      || str_eq e.decision ""
      || str_eq e.rule_version ""

  unfoldable pub unsupported_direction : String → Bool
  unsupported_direction d =
      not (str_eq d "request") && not (str_eq d "response") && not (str_eq d "admin")

  unfoldable pub unsupported_decision : String → Bool
  unsupported_decision d =
      not (str_eq d "allow")
      && not (str_eq d "monitor")
      && not (str_eq d "block")
      && not (str_eq d "redact")
      && not (str_eq d "success")

  unfoldable pub outside_range : Event → Bool
  outside_range e =
      ltb_ℤ e.risk_score (pos 0)
      || ltb_ℤ (pos 100) e.risk_score
      || ltb_ℤ e.latency_ms (pos 0)
      || ltb_ℤ e.body_bytes (pos 0)

  unfoldable pub too_long : Event → Bool
  too_long e =
      ltb 256 (size e.tenant_id)
      || ltb 256 (size e.request_id)
      || ltb 2048 (size e.path)
      || ltb 512 (size e.model)
      || ltb 512 (size e.rule_version)

  unfoldable pub validate_event : Event → Option String
  validate_event e =
      if missing_fields e
      then some "missing required v2 fields"
      else if not (is_uuid e.event_id)
      then some "event_id"
      else if unsupported_direction e.direction
      then some "unsupported direction"
      else if unsupported_decision e.decision
      then some "unsupported decision"
      else if outside_range e
      then some "numeric field outside supported range"
      else if too_long e
      then some "string field exceeds supported length"
      else none
