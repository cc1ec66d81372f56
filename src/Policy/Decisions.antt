-- ===== src/Policy/Decisions.antt =====
-- What `Decide` and `Elevate` of internal/policy/policy.go guarantee.
use llm_security_audit_gatew.Base.{
  ℕ, ◌≤◌, max, String, List, [], ◌∷◌, false, ◌≡◌, refl, sym, ap, subst, arith, Bool-cases, inl, inr,
  eq_iff, str_eq, if◌then◌else◌,
}
use llm_security_audit_gatew.Audit.{Match, Verdict}
use llm_security_audit_gatew.Policy.{
  Decision, block, monitor, redact, raised, elevate_matches, elevate,
}

-- The four decisions that the gateway acts on.
pub data IsDecision : Decision → Type 0 where
  is_allow : IsDecision "allow"
  is_monitor : IsDecision "monitor"
  is_redact : IsDecision "redact"
  is_block : IsDecision "block"

-- How far a decision intervenes; an action that is no decision counts as nothing.
unfoldable pub rank : Decision → ℕ
rank d =
    if str_eq d block then 3 else if str_eq d redact then 2 else if str_eq d monitor then 1 else 0

abbrev pub strongest : List Match → ℕ
strongest [] = 0
strongest (m ∷ ms) = max (rank m.action) (strongest ms)

rank-le : (d : Decision) → rank d ≤ 3
unfolding rank
rank-le d = ground arith

strongest-le : (ms : List Match) → strongest ms ≤ 3
strongest-le [] = omega arith
strongest-le (m ∷ ms) = omega (arith, rank-le m.action, strongest-le ms)

-- A rule's action is one of the three that count, or it is ignored.
data ActionView : String → Type 0 where
  blocks : ActionView "block"
  redacts : ActionView "redact"
  monitors : ActionView "monitor"
  ignored :
      {a : String}
      → str_eq a block ≡ false
      → str_eq a redact ≡ false
      → str_eq a monitor ≡ false
      → ActionView a

action_view : (a : String) → ActionView a
action_view a = elim (Bool-cases (str_eq a block)) [
  | inl b ↦ subst ActionView (sym ((eq_iff a block).0 b)) blocks
  | inr nb ↦ elim (Bool-cases (str_eq a redact)) [
    | inl r ↦ subst ActionView (sym ((eq_iff a redact).0 r)) redacts
    | inr nr ↦ elim (Bool-cases (str_eq a monitor)) [
      | inl m ↦ subst ActionView (sym ((eq_iff a monitor).0 m)) monitors
      | inr nm ↦ ignored nb nr nm
    ]
  ]
]

rank-ignored :
    (a : String)
    → str_eq a block ≡ false
    → str_eq a redact ≡ false
    → str_eq a monitor ≡ false
    → rank a ≡ 0
unfolding rank
rank-ignored a b r m = rw (b, r, m)

raised-ignored :
    (a : String) (d : Decision)
    → str_eq a redact ≡ false
    → str_eq a monitor ≡ false
    → raised a d ≡ d
unfolding raised
raised-ignored a d r m = rw (r, m)

raised-rank_at :
    {a : String} {d : Decision}
    → ActionView a
    → IsDecision d
    → str_eq a block ≡ false
    → IsDecision (raised a d) × (rank (raised a d) ≡ max (rank d) (rank a))
unfolding raised rank
raised-rank_at blocks h e = cc
raised-rank_at redacts is_allow e = (is_redact, refl)
raised-rank_at redacts is_monitor e = (is_redact, refl)
raised-rank_at redacts is_redact e = (is_redact, refl)
raised-rank_at redacts is_block e = (is_block, refl)
raised-rank_at monitors is_allow e = (is_monitor, refl)
raised-rank_at monitors is_monitor e = (is_monitor, refl)
raised-rank_at monitors is_redact e = (is_redact, refl)
raised-rank_at monitors is_block e = (is_block, refl)
raised-rank_at {d} (ignored {a} b r m) h e =
    rw (raised-ignored a d r m) (h, rw (rank-ignored a b r m) (omega arith))

elevate_matches-rank :
    (ms : List Match) {d : Decision}
    → IsDecision d
    → IsDecision (elevate_matches ms d)
      × (rank (elevate_matches ms d) ≡ max (rank d) (strongest ms))
unfolding elevate_matches
elevate_matches-rank [] {d} h = (h, omega arith)
elevate_matches-rank (m ∷ ms) {d} h = elim (Bool-cases (str_eq m.action block)) [
  | inl e ↦ rw e (
    is_block,
    omega (arith, rank_block, ap rank ((eq_iff m.action block).0 e), rank-le d, strongest-le ms),
  )
  | inr e ↦
      let step = raised-rank_at (action_view m.action) h e in
      let ih = elevate_matches-rank ms step.0 in rw e (ih.0, omega (arith, ih.1, step.1))
]
  where
    rank_block : rank block ≡ 3
    rank_block = unfold rank in refl

-- For each of the four decisions, `Elevate` gives one of the four again, and its rank is the
-- greater of the decision's own and that of the strongest action among the matched rules: an
-- action never lowers the policy's decision.
pub elevate-rank :
    (result : Verdict) {d : Decision}
    → IsDecision d
    → IsDecision (elevate result d)
      × (rank (elevate result d) ≡ max (rank d) (strongest result.matches))
unfolding elevate
elevate-rank result h = elevate_matches-rank result.matches h
