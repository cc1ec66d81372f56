-- ===== src/Policy/Scores.antt =====
-- The decisions under a published policy: `Decide` and `Elevate` behind `Resolve`
-- (internal/policy/policy.go).
use llm_security_audit_gatew.Base.{
  max, Bool, true, Bool-cases, ◌≤◌, ℤ, false, String, leb_ℤ, ◌≤ℤ◌, List, ◌≡◌, ◌⊎◌, inl, inr, arith,
  if◌then◌else◌,
}
use llm_security_audit_gatew.Audit.{Verdict}
use llm_security_audit_gatew.Policy.Decisions.{
  IsDecision, is_allow, is_monitor, is_redact, is_block, rank, strongest, elevate-rank,
}
use llm_security_audit_gatew.Policy.Publish.{IsActive, Update, run, resolve-IsActive}
use llm_security_audit_gatew.Policy.Resolver.{new_resolver, resolve}
use llm_security_audit_gatew.Policy.{
  Policy, allow, block, monitor, redact, decide_normal, decide, elevate,
}

rank-monitor : (rank monitor ≡ 1) × (rank allow ≡ 0) × (2 ≤ rank block) × (2 ≤ rank redact)
unfolding rank
rank-monitor = omega arith

decide_normal_mono :
    (p : Policy) (a b : ℤ)
    → 2 ≤ rank p.intervention_action
    → a ≤ℤ b
    → rank (decide_normal a p) ≤ rank (decide_normal b p)
unfolding decide_normal
decide_normal_mono p a b h le = ground (arith, rank-monitor)

action_rank : {d : String} → (d ≡ block) ⊎ (d ≡ redact) → 2 ≤ rank d
action_rank (inl e) = rw e rank-monitor.2
action_rank (inr e) = rw e rank-monitor.3

-- Under an active policy a verdict with a higher score is never answered by a weaker decision.
pub decide_mono :
    (p : Policy) (v w : Verdict)
    → IsActive p
    → v.score ≤ℤ w.score
    → rank (decide v p) ≤ rank (decide w p)
unfolding decide
decide_mono p v w a h =
    rw a.normal (decide_normal_mono p v.score w.score (action_rank a.action_known) h)

decide_normal-IsDecision :
    (p : Policy) (a : ℤ)
    → (p.intervention_action ≡ block) ⊎ (p.intervention_action ≡ redact)
    → IsDecision (decide_normal a p)
unfolding decide_normal
decide_normal-IsDecision p a h = elim (Bool-cases (leb_ℤ p.intervention_at a)) [
  | inl e ↦ rw e (known h)
  | inr e ↦ rw e (below (leb_ℤ p.monitor_at a))
]
  where
    known : {d : String} → (d ≡ block) ⊎ (d ≡ redact) → IsDecision d
    known (inl e) = rw e is_block
    known (inr e) = rw e is_redact

    below : (b : Bool) → IsDecision (if b then monitor else allow)
    below true = is_monitor
    below false = is_allow

-- Whatever updates the resolver has seen, the decision on a request or a response is one of the
-- four, and it intervenes as far as the strongest matched action or the score's own decision.
pub decide-elevate-IsDecision :
    (us : List Update) (tenant route direction : String) (v : Verdict)
    → let d = decide v (resolve (run us new_resolver) tenant route direction) in
      IsDecision (elevate v d) × (rank (elevate v d) ≡ max (rank d) (strongest v.matches))
decide-elevate-IsDecision us tenant route direction v =
    elevate-rank v (decided (resolve-IsActive us tenant route direction))
  where
    decided : {p : Policy} → IsActive p → IsDecision (decide v p)
    decided {p} a = unfold decide in rw a.normal (decide_normal-IsDecision p v.score a.action_known)
