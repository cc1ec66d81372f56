-- ===== src/Policy.antt =====
-- internal/policy/policy.go: the policy, its defaults, and the decision on a verdict. The
-- resolver is in Policy/Resolver, the properties are in the other children.
pub mod Resolver
pub mod Decisions
pub mod Resolution
pub mod Publish
pub mod Scores
mod Examples
use llm_security_audit_gatew.Base.{
  ℕ, String, ℤ, pos, leb_ℤ, List, [], ◌∷◌, not, str_eq, if◌then◌else◌,
}
use llm_security_audit_gatew.Audit.{Match, Verdict}

-- `type Decision string`.
abbrev pub Decision : Type 0
Decision = String

abbrev pub allow : Decision
allow = "allow"

abbrev pub block : Decision
block = "block"

abbrev pub monitor : Decision
monitor = "monitor"

abbrev pub redact : Decision
redact = "redact"

pub record Policy : Type 0 where
  pub id : String
  pub scope : String
  pub route_path : String
  pub direction : String
  pub monitor_at : ℤ
  pub intervention_at : ℤ
  pub intervention_action : Decision
  pub auditor_failure_mode : String
  pub revision : ℤ
  pub created_at : ℕ
  pub updated_at : ℕ

-- `Default`.
abbrev pub default_policy : Policy
default_policy = record {
  id = "";
  scope = "global";
  route_path = "*";
  direction = "request";
  monitor_at = pos 30;
  intervention_at = pos 80;
  intervention_action = block;
  auditor_failure_mode = "fail_open";
  revision = pos 1;
  created_at = 0;
  updated_at = 0;
}

-- `if v == "" { v = fallback }` and `if n <= 0 { n = fallback }`.
abbrev pub or_text : String → String → String
or_text v fallback = if str_eq v "" then fallback else v

abbrev pub or_positive : ℤ → ℤ → ℤ
or_positive n fallback = if leb_ℤ n (pos 0) then fallback else n

unfoldable pub normalized : Policy → Policy
normalized p = record p {
  scope = or_text p.scope "global";
  route_path = or_text p.route_path "*";
  direction = or_text p.direction "request";
  monitor_at = or_positive p.monitor_at (pos 30);
  intervention_at = or_positive p.intervention_at (pos 80);
  intervention_action = or_text p.intervention_action block;
  auditor_failure_mode = or_text p.auditor_failure_mode "fail_open";
  revision = or_positive p.revision (pos 1);
}

-- The tests of `Decide`, on the normalized policy.
unfoldable pub decide_normal : ℤ → Policy → Decision
decide_normal score p =
    if leb_ℤ p.intervention_at score
    then p.intervention_action
    else if leb_ℤ p.monitor_at score
    then monitor
    else allow

unfoldable pub decide : Verdict → Policy → Decision
unfolding decide_normal
decide result configured = decide_normal result.score (normalized configured)

-- The `switch` of `Elevate`, but for the case of `block`.
unfoldable pub raised : String → Decision → Decision
raised action decision =
    if str_eq action redact
    then (if not (str_eq decision block) then redact else decision)
    else if str_eq action monitor
    then (if str_eq decision allow then monitor else decision)
    else decision

-- The loop of `Elevate`; an action `block` returns at once.
unfoldable pub elevate_matches : List Match → Decision → Decision
elevate_matches [] decision = decision
elevate_matches (m ∷ ms) decision =
    let rest = elevate_matches ms (raised m.action decision) in
    if str_eq m.action block then block else rest

unfoldable pub elevate : Verdict → Decision → Decision
unfolding elevate_matches
elevate result decision = elevate_matches result.matches decision
