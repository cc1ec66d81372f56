-- ===== src/Httpapi/Emit.antt =====
-- internal/httpapi/handler.go: `emitMetadata` and `shadow`. The event's id, its
-- instants and SHA-256 are parameters; the pipeline redacts the event when it is enqueued.
use llm_security_audit_gatew.Base.{
  ℕ, String, pos, List, [], ◌∷◌, Option, none, some, Bool, if◌then◌else◌, length, Bytes,
}
use llm_security_audit_gatew.Base.Result.{Result, ok, err}
use llm_security_audit_gatew.Audit.{Input, Verdict, ModelResult, Event}
use llm_security_audit_gatew.Policy.{Policy, Decision, allow}

-- What an event takes from the handler; `pipeline` is whether it has one.
pub record Stamp : Type 0 where
  pub pipeline : Bool
  pub event_id : String
  pub event_time : ℕ
  pub latency_ms : ℕ
  pub sha256_hex : Bytes → String

-- What the rules and the policies say of one text.
pub record Assessment : Type 0 where
  pub verdict : Verdict
  pub rule_version : String
  pub configured : Policy

pub record ShadowJob : Type 0 where
  pub input : Input
  pub assessment : Assessment
  pub body : Bytes

abbrev pub event_of :
    Stamp
    → Input
    → Assessment
    → Decision
    → Option ModelResult
    → String
    → Bytes
    → List (String × String)
    → Event
event_of stamp input a decision model auditor_error body metadata = record {
  schema_version = "2";
  event_id = stamp.event_id;
  event_time = stamp.event_time;
  request_id = input.request_id;
  tenant_id = input.tenant_id;
  direction = input.direction;
  path = input.path;
  model = input.model;
  decision = decision;
  risk_score = a.verdict.score;
  rule_version = a.rule_version;
  api_key_id = input.api_key_id;
  policy_id = a.configured.id;
  policy_revision = a.configured.revision;
  matches = a.verdict.matches;
  auditor = model;
  auditor_error = auditor_error;
  latency_ms = pos stamp.latency_ms;
  body_bytes = pos (length body);
  content_sha256 = stamp.sha256_hex body;
  metadata = metadata;
}

-- The event that is enqueued, none without a pipeline.
unfoldable pub emit_metadata :
    Stamp
    → Input
    → Assessment
    → Decision
    → Option ModelResult
    → String
    → Bytes
    → List (String × String)
    → List Event
emit_metadata stamp input a decision model auditor_error body metadata =
    if stamp.pipeline
    then event_of stamp input a decision model auditor_error body metadata ∷ []
    else []

-- `shadow`: what the audit of a job emits, by the model's answer.
unfoldable pub shadow : Stamp → ShadowJob → Result String ModelResult → List Event
unfolding emit_metadata
shadow stamp job (err e) = emit_metadata stamp job.input job.assessment allow none e job.body []
shadow stamp job (ok r) = emit_metadata stamp job.input job.assessment allow (some r) "" job.body []
