-- ===== src/Policy/Resolver.antt =====
-- internal/policy/policy.go: which policy applies, validation, and the resolver's immutable
-- snapshots. The `sync/atomic` pointer is the snapshot itself: a `Store` is the whole new value.
use Prim.Native.String.{◌++◌}
use llm_security_audit_gatew.Base.{
  ℕ, ◌+◌, ◌*◌, String, pos, negsuc, ℤ, leb_ℤ, ltb_ℤ, List, [], ◌∷◌, Option, none, some, Bool, true,
  false, not, ◌&&◌, ◌||◌, str_eq, starts_with, trim_prefix, length, if◌then◌else◌,
}
use llm_security_audit_gatew.Base.Result.{Result, ok, err, ◌>>=◌}
use llm_security_audit_gatew.Policy.{Policy, block, redact, default_policy, normalized}

-- `specificity`. The scope's score is 2 or 0, -1 is a candidate that does not apply.
unfoldable pub specificity : Policy → String → String → ℤ
specificity candidate tenant route =
    let with_route = λ (scope_score : ℕ).
      if str_eq candidate.route_path route
      then pos (scope_score * 2 + 1)
      else if not (str_eq candidate.route_path "*")
      then negsuc 0
      else pos (scope_score * 2) in
    if str_eq candidate.scope ("tenant:" ++ tenant)
    then with_route 2
    else if str_eq candidate.scope "global"
    then with_route 0
    else negsuc 0

-- The loop of `Resolve`, over the candidates still to be seen.
unfoldable pub resolve_from : String → String → String → Policy → ℤ → List Policy → Policy
resolve_from tenant route direction best best_score [] = best
resolve_from tenant route direction best best_score (candidate ∷ rest) =
    let score = specificity candidate tenant route in
    let better = str_eq candidate.direction direction && ltb_ℤ best_score score in
    resolve_from tenant route direction (if better then candidate else best)
      (if better then score else best_score) rest

-- `snapshot`; the resolver's pointer is never nil after `NewResolver`.
pub record Snapshot : Type 0 where
  pub policies : List Policy
  pub stale : Bool

unfoldable pub resolve : Snapshot → String → String → String → Policy
unfolding resolve_from
resolve current tenant route direction =
    normalized (resolve_from tenant route direction default_policy (negsuc 0) current.policies)

-- The tests of `Validate`, each on a field of the normalized policy.
unfoldable pub bad_scope : String → Bool
bad_scope scope =
    not (str_eq scope "global")
    && (not (starts_with scope "tenant:") || str_eq (trim_prefix scope "tenant:") "")

unfoldable pub bad_route : String → Bool
bad_route r =
    not (str_eq r "*")
    && not (str_eq r "/v1/chat/completions")
    && not (str_eq r "/v1/completions")
    && not (str_eq r "/v1/embeddings")
    && not (str_eq r "/v1/responses")

unfoldable pub neither : String → String → String → Bool
neither v a b = not (str_eq v a) && not (str_eq v b)

unfoldable pub bad_thresholds : ℤ → ℤ → Bool
bad_thresholds m n = ltb_ℤ m (pos 1) || ltb_ℤ (pos 100) n || leb_ℤ n m

unfoldable pub validate_normal : Policy → Option String
validate_normal p =
    if bad_scope p.scope
    then some "policy scope must be global or tenant:<id>"
    else if bad_route p.route_path
    then some "unsupported policy route_path"
    else if neither p.direction "request" "response"
    then some "policy direction must be request or response"
    else if bad_thresholds p.monitor_at p.intervention_at
    then some "policy thresholds must satisfy 1 <= monitor_at < intervention_at <= 100"
    else if neither p.intervention_action block redact
    then some "intervention_action must be block or redact"
    else if neither p.auditor_failure_mode "fail_open" "fail_closed"
    then some "auditor_failure_mode must be fail_open or fail_closed"
    else none

-- `Validate`; `none` is the nil error.
unfoldable pub validate : Policy → Option String
unfolding validate_normal
validate p = validate_normal (normalized p)

-- One round of the loop of `Refresh`, on the error of `Validate` for the policy and what the
-- later rounds give.
unfoldable pub compile_policy :
    Option String → Policy → Result String (List Policy) → Result String (List Policy)
compile_policy (some e) p rest = err e
compile_policy none p rest = rest >>= λ compiled. ok (normalized p ∷ compiled)

-- The loop of `Refresh`: the first invalid policy stops it.
unfoldable pub compile_policies : List Policy → Result String (List Policy)
unfolding compile_policy
compile_policies [] = ok []
compile_policies (p ∷ ps) = compile_policy (validate p) p (compile_policies ps)

-- `if len(policies) == 0 { policies = []Policy{Default()} }`.
abbrev pub or_default : List Policy → List Policy
or_default [] = default_policy ∷ []
or_default ps = ps

-- The end of `Refresh`: `Store` publishes the compiled policies.
unfoldable pub publish : Snapshot → Result String (List Policy) → Snapshot × Option String
publish current (err e) = (current, some e)
publish current (ok compiled) = (record { policies = compiled; stale = false }, none)

-- `Refresh`; the source's answer is an argument, `none` where there is no source.
unfoldable pub refresh : Option (Result String (List Policy)) → Snapshot → Snapshot × Option String
unfolding compile_policies publish
refresh none current = (current, none)
refresh (some (err e)) current = (current, some e)
refresh (some (ok policies)) current = publish current (compile_policies (or_default policies))

unfoldable pub mark_stale : Snapshot → Snapshot
mark_stale current = record current { stale = true }

-- `NewResolver`.
unfoldable pub new_resolver : Snapshot
new_resolver = record { policies = default_policy ∷ []; stale = false }

pub record Status : Type 0 where
  pub hash : String
  pub is_stale : Bool
  pub count : ℕ

-- `Status`; the digest of the printed policies is a parameter.
unfoldable pub status : (List Policy → String) → Snapshot → Status
status digest current = record {
  hash = digest current.policies;
  is_stale = current.stale;
  count = length current.policies;
}
