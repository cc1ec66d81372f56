-- ===== src/Audit.antt =====
-- internal/audit: the types of types.go and auditor.go that the other parts exchange, and
-- `RedactEvidence`. The circuit breaker of circuit.go is in Audit/Circuit, its properties in
-- Audit/CircuitLaws, those of `RedactEvidence` in Audit/Redaction.
pub mod Circuit
pub mod CircuitLaws
pub mod Redaction
mod Examples
use llm_security_audit_gatew.Base.{
  ℕ, String, ℤ, List, [], Option, none, some, not, insert, str_eq, if◌then◌else◌, Bytes,
}

-- `Input`. The text is a list of bytes: the rules scan it byte by byte.
pub record Input : Type 0 where
  pub request_id : String
  pub tenant_id : String
  pub api_key_id : String
  pub direction : String
  pub model : String
  pub path : String
  pub text : Bytes

pub record Match : Type 0 where
  pub rule_id : String
  pub name : String
  pub severity : String
  pub action : String
  pub weight : ℤ
  pub evidence : String

-- `Result`. The zero value has score 0 and no matches.
pub record Verdict : Type 0 where
  pub score : ℤ
  pub matches : List Match

-- `ModelResult`, without the confidence, which no code of the gateway computes with.
pub record ModelResult : Type 0 where
  pub verdict : String
  pub score : ℤ
  pub categories : List String
  pub evidence : String
  pub model : String
  pub version : String
  pub latency : ℕ

pub record Event : Type 0 where
  pub schema_version : String
  pub event_id : String
  pub event_time : ℕ
  pub request_id : String
  pub tenant_id : String
  pub direction : String
  pub path : String
  pub model : String
  pub decision : String
  pub risk_score : ℤ
  pub rule_version : String
  pub api_key_id : String
  pub policy_id : String
  pub policy_revision : ℤ
  pub matches : List Match
  pub auditor : Option ModelResult
  pub auditor_error : String
  pub latency_ms : ℤ
  pub body_bytes : ℤ
  pub content_sha256 : String
  pub metadata : List (String × String)

-- The first `if` of `RedactEvidence`: a copy of the model's result without its evidence.
abbrev pub drop_evidence : Option ModelResult → Option ModelResult
drop_evidence none = none
drop_evidence (some r) =
    if not (str_eq r.evidence "") then some (record r { evidence = "" }) else some r

unfoldable pub redact_evidence : Event → Event
redact_evidence event =
    let event' = record event { auditor = drop_evidence event.auditor } in
    if not (str_eq event'.decision "redact") then event' else record event' {
      matches = [];
      metadata = insert "evidence_redacted" "true" event'.metadata;
    }
