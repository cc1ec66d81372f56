-- ===== src/Httpapi/RequestAudit.antt =====
-- internal/httpapi/handler.go: what `proxy` does between decoding a request and forwarding it. The
-- assessment is what the rules and the resolver answered, the reply what the model would answer.
use llm_security_audit_gatew.Base.{
  String, leb_ℤ, List, [], ◌∷◌, Option, none, some, Bool, true, false, not, ◌&&◌, ◌||◌, str_eq,
  Bytes, if◌then◌else◌,
}
use llm_security_audit_gatew.Base.Result.{Result, ok, err}
use llm_security_audit_gatew.Audit.{Input, ModelResult, Event}
use llm_security_audit_gatew.Policy.{Decision, allow, block, monitor, decide, elevate}
use llm_security_audit_gatew.Config.{Config}
use llm_security_audit_gatew.Httpapi.Emit.{Stamp, Assessment, ShadowJob, emit_metadata}
pub mod Trail

-- The events emitted, whether the model was asked, the shadow jobs submitted, and the code of the
-- error answer where the request is refused.
pub record Audited : Type 0 where
  pub emitted : List Event
  pub asked : Bool
  pub shadow : List ShadowJob
  pub refusal : Option String

abbrev pub decision_of : Assessment → Decision
decision_of a = elevate a.verdict (decide a.verdict a.configured)

module _ (config : Config) (stamp : Stamp) (input : Input) (a : Assessment) (body : Bytes) where
  abbrev pub emit : Decision → Option ModelResult → String → List Event
  emit decision model auditor_error =
      emit_metadata stamp input a decision model auditor_error body []

  abbrev pub refuse : Bool → String → Option ModelResult → String → Audited
  refuse asked code model auditor_error = record {
    emitted = emit block model auditor_error;
    asked = asked;
    shadow = [];
    refusal = some code;
  }

  unfoldable pub proceed : Bool → Decision → Option ModelResult → String → Audited
  proceed asked decision model auditor_error = record {
    emitted = emit decision model auditor_error;
    asked = asked;
    shadow =
        if str_eq decision allow && not (str_eq config.auditor_url "")
        then record { input = input; assessment = a; body = body } ∷ []
        else [];
    refusal = none;
  }

  -- The synchronous audit by the model.
  unfoldable pub after_auditor : Decision → Result String ModelResult → Audited
  unfolding proceed
  after_auditor decision (err e) =
      if str_eq a.configured.auditor_failure_mode "fail_closed" || config.fail_closed
      then refuse true "auditor_unavailable" none e
      else proceed true decision none e
  after_auditor decision (ok r) =
      if str_eq r.verdict "block" || leb_ℤ a.configured.intervention_at r.score
      then refuse true "auditor_blocked" (some r) ""
      else proceed true decision (some r) ""

  unfoldable pub on_decision : Result String ModelResult → Decision → Audited
  unfolding after_auditor proceed
  on_decision reply decision =
      if str_eq decision block
      then refuse false "policy_blocked" none ""
      else if str_eq decision monitor && not (str_eq config.auditor_url "")
      then after_auditor decision reply
      else proceed false decision none ""

  unfoldable pub audit_request : Result String ModelResult → Audited
  unfolding on_decision
  audit_request reply =
      if config.audit_enabled
      then on_decision reply (decision_of a)
      else record { emitted = []; asked = false; shadow = []; refusal = none }
