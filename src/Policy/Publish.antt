-- ===== src/Policy/Publish.antt =====
-- What a published snapshot holds: `Validate`, `Normalized` and `Refresh` of
-- internal/policy/policy.go.
use llm_security_audit_gatew.Base.{
  ℕ, suc, ◌≤◌, ◌<◌, ℤ, true, false, starts_with, trim_prefix, ◌≢◌, Bool-cases, String, pos_part,
  neg_part, pos, List, [], ◌∷◌, Option, none, some, ◌≡◌, ◌⊎◌, inl, inr, refl, arith, eq_iff, str_eq,
  All, All-Mem,
}
use llm_security_audit_gatew.Base.Result.{Result, ok, err}
use llm_security_audit_gatew.Policy.Resolution.{resolve_best}
use llm_security_audit_gatew.Policy.Resolver.{
  Snapshot, neither, bad_thresholds, validate_normal, validate, compile_policy, compile_policies,
  or_default, publish, refresh, bad_scope, bad_route, mark_stale, new_resolver, resolve,
}
use llm_security_audit_gatew.Policy.{
  Policy, or_text, or_positive, block, redact, default_policy, normalized,
}

or_text-or_text : (v f : String) → str_eq f "" ≡ false → or_text (or_text v f) f ≡ or_text v f
or_text-or_text v f h = ground arith

or_positive-or_positive :
    (n : ℤ) (k : ℕ)
    → or_positive (or_positive n (pos (suc k))) (pos (suc k)) ≡ or_positive n (pos (suc k))
or_positive-or_positive n k = ground arith

pub normalized-normalized : (p : Policy) → normalized (normalized p) ≡ normalized p
unfolding normalized
normalized-normalized p = λ i. record p {
  scope = or_text-or_text p.scope "global" refl i;
  route_path = or_text-or_text p.route_path "*" refl i;
  direction = or_text-or_text p.direction "request" refl i;
  monitor_at = or_positive-or_positive p.monitor_at 29 i;
  intervention_at = or_positive-or_positive p.intervention_at 79 i;
  intervention_action = or_text-or_text p.intervention_action block refl i;
  auditor_failure_mode = or_text-or_text p.auditor_failure_mode "fail_open" refl i;
  revision = or_positive-or_positive p.revision 0 i;
}

one_of : (v a b : String) → neither v a b ≡ false → (v ≡ a) ⊎ (v ≡ b)
unfolding neither
one_of v a b h = ground (arith, eq_iff v a, eq_iff v b)

thresholds :
    (m n : ℤ)
    → bad_thresholds m n ≡ false
    → (neg_part m ≡ 0) × (1 ≤ pos_part m) × (pos_part m < pos_part n) × (pos_part n ≤ 100)
unfolding bad_thresholds
thresholds m n h = ground arith

scope_of :
    (v : String)
    → bad_scope v ≡ false
    → (v ≡ "global") ⊎ ((starts_with v "tenant:" ≡ true) × (trim_prefix v "tenant:" ≢ ""))
unfolding bad_scope
scope_of v h = elim (Bool-cases (str_eq v "global")) [
  | inl global ↦ inl ((eq_iff v "global").0 global)
  | inr other ↦ inr (ground arith, named other)
]
  where
    named : str_eq v "global" ≡ false → trim_prefix v "tenant:" ≢ ""
    named other e = ground (arith, eq_iff (trim_prefix v "tenant:") "")

route_of :
    (v : String)
    → bad_route v ≡ false
    → (v ≡ "*")
      ⊎ ((v ≡ "/v1/chat/completions")
          ⊎ ((v ≡ "/v1/completions") ⊎ ((v ≡ "/v1/embeddings") ⊎ (v ≡ "/v1/responses"))))
unfolding bad_route
route_of v h = ground (
  arith,
  eq_iff v "*",
  eq_iff v "/v1/chat/completions",
  eq_iff v "/v1/completions",
  eq_iff v "/v1/embeddings",
  eq_iff v "/v1/responses",
)

-- The tests of `Validate` on a normalized policy.
pub record IsActive (p : Policy) : Type 0 where
  pub normal : normalized p ≡ p
  pub scope_known :
      (p.scope ≡ "global")
      ⊎ ((starts_with p.scope "tenant:" ≡ true) × (trim_prefix p.scope "tenant:" ≢ ""))
  pub route_known :
      (p.route_path ≡ "*")
      ⊎ ((p.route_path ≡ "/v1/chat/completions")
          ⊎ ((p.route_path ≡ "/v1/completions")
              ⊎ ((p.route_path ≡ "/v1/embeddings") ⊎ (p.route_path ≡ "/v1/responses"))))
  pub direction_known : (p.direction ≡ "request") ⊎ (p.direction ≡ "response")
  pub monitor_int : neg_part p.monitor_at ≡ 0
  pub monitor_pos : 1 ≤ pos_part p.monitor_at
  pub ordered : pos_part p.monitor_at < pos_part p.intervention_at
  pub intervention_le : pos_part p.intervention_at ≤ 100
  pub action_known : (p.intervention_action ≡ block) ⊎ (p.intervention_action ≡ redact)
  pub mode_known : (p.auditor_failure_mode ≡ "fail_open") ⊎ (p.auditor_failure_mode ≡ "fail_closed")

validate_normal_passes :
    (p : Policy)
    → validate_normal p ≡ none
    → (bad_scope p.scope ≡ false)
      × (bad_route p.route_path ≡ false)
      × (neither p.direction "request" "response" ≡ false)
      × (bad_thresholds p.monitor_at p.intervention_at ≡ false)
      × (neither p.intervention_action block redact ≡ false)
      × (neither p.auditor_failure_mode "fail_open" "fail_closed" ≡ false)
unfolding validate_normal
validate_normal_passes p h = ground arith

validate_normal-IsActive : (p : Policy) → normalized p ≡ p → validate_normal p ≡ none → IsActive p
validate_normal-IsActive p n h =
    let passed = validate_normal_passes p h in
    let t = thresholds p.monitor_at p.intervention_at passed.3 in
    record {
      normal = n;
      scope_known = scope_of p.scope passed.0;
      route_known = route_of p.route_path passed.1;
      direction_known = one_of p.direction "request" "response" passed.2;
      monitor_int = t.0;
      monitor_pos = t.1;
      ordered = t.2;
      intervention_le = t.3;
      action_known = one_of p.intervention_action block redact passed.4;
      mode_known = one_of p.auditor_failure_mode "fail_open" "fail_closed" passed.5;
    }

-- A policy that `Validate` accepts is active once it is normalized, as `Refresh` publishes it.
pub validate-IsActive : (p : Policy) → validate p ≡ none → IsActive (normalized p)
unfolding validate
validate-IsActive p h = validate_normal-IsActive (normalized p) (normalized-normalized p) h

abbrev Compiled : Result String (List Policy) → Type 0
Compiled (ok ps) = All IsActive ps
Compiled (err e) = Unit

compile_policy-Compiled :
    (o : Option String) (p : Policy) (r : Result String (List Policy))
    → validate p ≡ o
    → Compiled r
    → Compiled (compile_policy o p r)
unfolding compile_policy
compile_policy-Compiled (some e) p r bad h = tt
compile_policy-Compiled none p (ok qs) good h = (validate-IsActive p good, h)
compile_policy-Compiled none p (err e) good h = tt

compile_policies-Compiled : (ps : List Policy) → Compiled (compile_policies ps)
unfolding compile_policies
compile_policies-Compiled [] = tt
compile_policies-Compiled (p ∷ ps) =
    compile_policy-Compiled (validate p) p _ refl (compile_policies-Compiled ps)

publish-AllActive :
    (s : Snapshot) (r : Result String (List Policy))
    → All IsActive s.policies
    → Compiled r
    → All IsActive (publish s r).0.policies × (((publish s r).1 ≡ none) ⊎ ((publish s r).0 ≡ s))
unfolding publish
publish-AllActive s (ok qs) h k = (k, inl refl)
publish-AllActive s (err e) h k = (h, inr refl)

abbrev pub AllActive : Snapshot → Type 0
AllActive s = All IsActive s.policies

-- Whatever the policy source answers, `Refresh` keeps every published policy active, and an
-- error leaves the snapshot as it was.
pub refresh-AllActive :
    (answer : Option (Result String (List Policy))) (s : Snapshot)
    → AllActive s
    → AllActive (refresh answer s).0 × (((refresh answer s).1 ≡ none) ⊎ ((refresh answer s).0 ≡ s))
unfolding refresh
refresh-AllActive none s h = (h, inl refl)
refresh-AllActive (some (err e)) s h = (h, inr refl)
refresh-AllActive (some (ok ps)) s h =
    publish-AllActive s _ h (compile_policies-Compiled (or_default ps))

-- What changes a resolver's snapshot: the answers to `Refresh`, and `MarkStale`.
pub data Update : Type 0 where
  refreshed : Option (Result String (List Policy)) → Update
  marked : Update

unfoldable pub run : List Update → Snapshot → Snapshot
run [] s = s
run (refreshed answer ∷ us) s = run us (refresh answer s).0
run (marked ∷ us) s = run us (mark_stale s)

default_policy-IsActive : IsActive default_policy
unfolding normalized validate bad_scope bad_route neither bad_thresholds
default_policy-IsActive = validate-IsActive default_policy refl

run-AllActive_from : (us : List Update) (s : Snapshot) → AllActive s → AllActive (run us s)
unfolding run mark_stale
run-AllActive_from [] s h = h
run-AllActive_from (refreshed answer ∷ us) s h =
    run-AllActive_from us (refresh answer s).0 (refresh-AllActive answer s h).0
run-AllActive_from (marked ∷ us) s h = run-AllActive_from us (mark_stale s) h

run-AllActive : (us : List Update) → AllActive (run us new_resolver)
unfolding new_resolver
run-AllActive us = run-AllActive_from us new_resolver (default_policy-IsActive, tt)

-- After any sequence of refreshes, whatever the source answered, and of stale marks, the policy
-- that `Resolve` hands out for any tenant, route and direction passes every test of `Validate`: scope, route,
-- direction, thresholds, action and failure mode.
pub resolve-IsActive :
    (us : List Update) (tenant route direction : String)
    → IsActive (resolve (run us new_resolver) tenant route direction)
resolve-IsActive us tenant route direction =
    elim (resolve_best tenant route direction (run us new_resolver)) [
      | inl (c, e, p, _, _) ↦
          let a = All-Mem IsActive p.listed (run-AllActive us) in rw (e, a.normal) a
      | inr (e, _) ↦ rw (e, default_policy-IsActive.normal) default_policy-IsActive
    ]
