-- ===== src/Health.antt =====
-- internal/health/health.go: the readiness of the gateway. A component's details are left out; what
-- the probes answer is an argument, and so is `now`.
use llm_security_audit_gatew.Base.{
  ℕ, String, ℤ, pos, leb_ℤ, List, [], ◌∷◌, Option, none, some, Bool, true, false, not, ◌&&◌, str_eq,
  lookup, insert, if◌then◌else◌,
}
pub mod Readiness
mod Examples

pub record Component : Type 0 where
  pub required : Bool
  pub status : String
  pub checked_at : ℕ
  pub error : String

-- What a probe returns.
pub data Probed : Type 0 where
  healthy : Probed
  dependency_disabled : Probed
  unhealthy : String → Probed

-- A probe is known by its name and whether it is required.
pub record Manager : Type 0 where
  pub probes : List (String × Bool)
  pub states : List (String × Component)
  pub interval : ℤ
  pub timeout : ℤ

unfoldable pub new_manager : ℤ → ℤ → Manager
new_manager interval timeout = record {
  probes = [];
  states = [];
  interval = if leb_ℤ interval (pos 0) then pos 5_000_000_000 else interval;
  timeout = if leb_ℤ timeout (pos 0) then pos 750_000_000 else timeout;
}

unfoldable pub add : String → Bool → Manager → Manager
add name required m = record m {
  probes = insert name required m.probes;
  states =
      insert name (record { required = required; status = "unknown"; checked_at = 0; error = "" })
        m.states;
}

abbrev pub component : Bool → ℕ → Probed → Component
component required now healthy = record {
  required = required;
  status = "ok";
  checked_at = now;
  error = "";
}
component required now dependency_disabled = record {
  required = required;
  status = "disabled";
  checked_at = now;
  error = "";
}
component required now (unhealthy error) = record {
  required = required;
  status = "error";
  checked_at = now;
  error = error;
}

-- The loop of `ProbeNow`.
unfoldable pub probe_all :
    (String → Probed)
    → ℕ
    → List (String × Bool)
    → List (String × Component)
    → List (String × Component)
probe_all answers now [] states = states
probe_all answers now ((name, required) ∷ probes) states =
    probe_all answers now probes (insert name (component required now (answers name)) states)

unfoldable pub probe_now : (String → Probed) → ℕ → Manager → Manager
unfolding probe_all
probe_now answers now m = record m { states = probe_all answers now m.probes m.states }

abbrev pub fail_registered : String → String → ℕ → Manager → Option Bool → Manager
fail_registered name message now m none = m
fail_registered name message now m (some required) = record m {
  states = insert name (component required now (unhealthy message)) m.states;
}

unfoldable pub set_required_failure : String → String → ℕ → Manager → Manager
set_required_failure name message now m = fail_registered name message now m (lookup name m.probes)

-- The status that the loop of `Report` computes.
unfoldable pub report_status : List (String × Component) → String → String
report_status [] status = status
report_status ((name, state) ∷ states) status =
    report_status states
      (if state.required && not (str_eq state.status "ok") then "not_ready" else status)

unfoldable pub ready : Manager → Bool
unfolding report_status
ready m = str_eq (report_status m.states "ready") "ready"
