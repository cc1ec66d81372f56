-- ===== src/Health/Readiness.antt =====
-- internal/health/health.go: what readiness depends on.
use llm_security_audit_gatew.Base.{
  ℕ, ◌≡◌, refl, sym, ap, ap₂, ◌∙◌, subst, ◌⊎◌, String, List, [], ◌∷◌, Option, none, some, Bool,
  true, false, not, ◌&&◌, str_eq, eq_iff, eq_refl, lookup, insert, lookup-insert, if◌then◌else◌,
  Bool-cases, inl, inr, Distinct,
}
use llm_security_audit_gatew.Health.{
  Component, Probed, healthy, dependency_disabled, unhealthy, Manager, component, probe_all,
  probe_now, fail_registered, set_required_failure, report_status, ready,
}

abbrev pub is_bad : Component → Bool
is_bad state = state.required && not (str_eq state.status "ok")

report_not_ready :
    (states : List (String × Component)) → report_status states "not_ready" ≡ "not_ready"
unfolding report_status
report_not_ready [] = refl
report_not_ready ((name, state) ∷ states) = elim (Bool-cases (is_bad state)) [
  | inl bad ↦ rw bad (report_not_ready states)
  | inr fine ↦ rw fine (report_not_ready states)
]

-- A bad component that the report finds makes it not ready.
report_bad :
    (states : List (String × Component)) (name : String) (state : Component)
    → lookup name states ≡ some state
    → is_bad state ≡ true
    → report_status states "ready" ≡ "not_ready"
unfolding report_status lookup
report_bad [] name state h bad = absurd (cc)
report_bad ((key, first) ∷ states) name state h bad = elim (Bool-cases (is_bad first)) [
  | inl worse ↦ rw worse (report_not_ready states)
  | inr fine ↦ elim (Bool-cases (str_eq key name)) [
    | inl this ↦ absurd (clash (rw this at h) fine)
    | inr other ↦ rw fine (report_bad states name state (rw other at h) bad)
  ]
]
  where
    clash : some first ≡ some state → is_bad first ≡ false → ⊥
    clash e fine = no_both (sym bad ∙ ap is_bad (sym (same e)) ∙ fine)
      where
        same : some first ≡ some state → first ≡ state
        same e = cc

        no_both : true ≡ false → ⊥
        no_both e = cc

not_ready : (m : Manager) → report_status m.states "ready" ≡ "not_ready" → ready m ≡ false
unfolding ready
not_ready m e = ap (λ (s : String). str_eq s "ready") e

probe_all-lookup_free :
    (answers : String → Probed) (now : ℕ) (name : String) (probes : List (String × Bool))
    (states : List (String × Component))
    → lookup name probes ≡ none
    → lookup name (probe_all answers now probes states) ≡ lookup name states
unfolding probe_all
probe_all-lookup_free answers now name [] states free = refl
probe_all-lookup_free answers now name ((key, required) ∷ probes) states free =
    elim (Bool-cases (str_eq key name)) [
      | inl this ↦ absurd (taken this free)
      | inr other ↦
          let c = component required now (answers key) in
          probe_all-lookup_free answers now name probes (insert key c states) (left other free)
          ∙ lookup-insert key name c states
          ∙ ap (λ (b : Bool). if b then some c else lookup name states) other
    ]
  where
    left :
        str_eq key name ≡ false
        → lookup name ((key, required) ∷ probes) ≡ none
        → lookup name probes ≡ none
    left other = unfold lookup in λ e. rw other at e

    no_bool : some required ≡ none → ⊥
    no_bool e = cc

    taken : str_eq key name ≡ true → lookup name ((key, required) ∷ probes) ≡ none → ⊥
    taken this = unfold lookup in λ e. no_bool (rw this at e)

-- The answer of a probe is what the states hold behind `ProbeNow`.
probe_all-lookup :
    (answers : String → Probed) (now : ℕ) (name : String) (required : Bool)
    (probes : List (String × Bool)) (states : List (String × Component))
    → Distinct probes
    → lookup name probes ≡ some required
    → lookup name (probe_all answers now probes states)
      ≡ some (component required now (answers name))
unfolding probe_all lookup
probe_all-lookup answers now name required [] states d h = absurd (cc)
probe_all-lookup answers now name required ((key, r) ∷ probes) states (free, d) h =
    elim (Bool-cases (str_eq key name)) [
      | inr other ↦
          probe_all-lookup answers now name required probes
            (insert key (component r now (answers key)) states) d (rw other at h)
      | inl this ↦
          let e = (eq_iff key name).0 this in
          let c = component r now (answers key) in
          probe_all-lookup_free answers now name probes (insert key c states)
            (subst (λ (k : String). lookup k probes ≡ none) e free)
          ∙ lookup-insert key name c states
          ∙ ap (λ (b : Bool). if b then some c else lookup name states) this
          ∙ ap some
              (ap₂ (λ (r : Bool) (k : String). component r now (answers k)) (same (rw this at h)) e)
    ]
  where
    same : some r ≡ some required → r ≡ required
    same e = cc

-- How a probe's answer shows in the status.
abbrev pub Ok : Probed → Type 0
Ok healthy = Unit
Ok dependency_disabled = ⊥
Ok (unhealthy error) = ⊥

bad_or_fine : (now : ℕ) (answer : Probed) → Ok answer ⊎ (is_bad (component true now answer) ≡ true)
bad_or_fine now healthy = inl tt
bad_or_fine now dependency_disabled = inr refl
bad_or_fine now (unhealthy error) = inr refl

-- If the gateway is ready behind a round of probes, every required probe answered that its
-- component is well: a required dependency that is disabled withdraws readiness as one that fails
-- does.
pub probe_now-ready :
    (answers : String → Probed) (now : ℕ) (m : Manager) (name : String)
    → Distinct m.probes
    → lookup name m.probes ≡ some true
    → ready (probe_now answers now m) ≡ true
    → Ok (answers name)
unfolding probe_now
probe_now-ready answers now m name d h up = elim (bad_or_fine now (answers name)) [
  | inl well ↦ well
  | inr bad ↦ absurd (
      no_both (
        sym up
        ∙ not_ready (probe_now answers now m) (
            report_bad (probe_all answers now m.probes m.states) name
              (component true now (answers name))
              (probe_all-lookup answers now name true m.probes m.states d h) bad)))
]
  where
    no_both : true ≡ false → ⊥
    no_both e = cc

-- A failure that the hot path reports of a required component withdraws readiness at once.
pub set_required_failure-ready :
    (name message : String) (now : ℕ) (m : Manager)
    → lookup name m.probes ≡ some true
    → ready (set_required_failure name message now m) ≡ false
unfolding set_required_failure
set_required_failure-ready name message now m h =
    ap (λ (o : Option Bool). ready (fail_registered name message now m o)) h
    ∙ not_ready (fail_registered name message now m (some true)) (
        report_bad _ name (component true now (unhealthy message))
          (lookup-insert name name (component true now (unhealthy message)) m.states
            ∙ ap
                (λ (b : Bool).
                  if b then some (component true now (unhealthy message)) else lookup name m.states)
                (eq_refl name))
          refl)
