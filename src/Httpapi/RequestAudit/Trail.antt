-- ===== src/Httpapi/RequestAudit/Trail.antt =====
-- What the audit of a request in internal/httpapi/handler.go records and lets pass.
use llm_security_audit_gatew.Base.{
  String, leb_ℤ, [], ◌∷◌, Option, none, some, Bool, true, false, not, ◌&&◌, ◌||◌, str_eq, is_some,
  if◌then◌else◌, ◌≡◌, ◌≢◌, ◌⊎◌, refl, inl, inr, arith, eq_iff, Bytes, Bool-cases,
}
use llm_security_audit_gatew.Base.Result.{Result, ok, err}
use llm_security_audit_gatew.Audit.{Input, ModelResult, Event}
use llm_security_audit_gatew.Policy.{Decision, allow, block, monitor}
use llm_security_audit_gatew.Config.{Config}
use llm_security_audit_gatew.Httpapi.Emit.{
  Stamp, Assessment, ShadowJob, event_of, emit_metadata, shadow,
}
use llm_security_audit_gatew.Httpapi.RequestAudit.{
  Audited, decision_of, refuse, proceed, after_auditor, on_decision, audit_request,
}

-- What the audit of a shadow job adds: one event that says `allow`.
pub record Shadowed (stamp : Stamp) (input : Input) (job : ShadowJob)
    (reply : Result String ModelResult) : Type 0 where
  pub event : Event
  pub only : shadow stamp job reply ≡ (if stamp.pipeline then event ∷ [] else [])
  pub allowed : event.decision ≡ allow
  pub request : event.request_id ≡ input.request_id

-- The event of a request says `block` exactly if the request is refused, and names it; a shadow job
-- is handed over only for a request that passes with `allow`.
pub record Recorded (stamp : Stamp) (input : Input) (r : Audited) : Type 0 where
  pub event : Event
  pub only : r.emitted ≡ (if stamp.pipeline then event ∷ [] else [])
  pub truthful : str_eq event.decision block ≡ is_some r.refusal
  pub request : event.request_id ≡ input.request_id
  pub tenant : event.tenant_id ≡ input.tenant_id
  pub second :
      (r.shadow ≡ [])
      ⊎ ((event.decision ≡ allow)
          × (r.refusal ≡ none)
          × ((job : ShadowJob) × (r.shadow ≡ job ∷ [])
              × ((reply : Result String ModelResult) → Shadowed stamp input job reply)))

module _ (config : Config) (stamp : Stamp) (input : Input) (a : Assessment) (body : Bytes) where
  shadow-Shadowed :
      (reply : Result String ModelResult)
      → Shadowed stamp input (record { input = input; assessment = a; body = body }) reply
  unfolding shadow emit_metadata
  shadow-Shadowed (err e) = record { event = _; only = refl; allowed = refl; request = refl }
  shadow-Shadowed (ok r) = record { event = _; only = refl; allowed = refl; request = refl }

  refuse-Recorded :
      (asked : Bool) (code : String) (model : Option ModelResult) (e : String)
      → Recorded stamp input (refuse config stamp input a body asked code model e)
  unfolding emit_metadata
  refuse-Recorded asked code model e = record {
    event = event_of stamp input a block model e body [];
    only = refl;
    truthful = refl;
    request = refl;
    tenant = refl;
    second = inl refl;
  }

  proceed-Recorded :
      (asked : Bool) (d : Decision) (model : Option ModelResult) (e : String)
      → str_eq d block ≡ false
      → Recorded stamp input (proceed config stamp input a body asked d model e)
  unfolding proceed emit_metadata
  proceed-Recorded asked d model e h = record {
    event = event_of stamp input a d model e body [];
    only = refl;
    truthful = h;
    request = refl;
    tenant = refl;
    second = elim (Bool-cases (str_eq d allow && not (str_eq config.auditor_url ""))) [
      | inl shadowed ↦
          rw shadowed (inr (ground (arith, eq_iff d allow), refl, (_, refl, shadow-Shadowed)))
      | inr unshadowed ↦ rw unshadowed (inl refl)
    ];
  }

  after_auditor-Recorded :
      (d : Decision) (reply : Result String ModelResult)
      → str_eq d block ≡ false
      → Recorded stamp input (after_auditor config stamp input a body d reply)
  unfolding after_auditor
  after_auditor-Recorded d (err e) h =
      elim (Bool-cases
        (str_eq a.configured.auditor_failure_mode "fail_closed" || config.fail_closed)) [
          | inl closed ↦ rw closed (refuse-Recorded true "auditor_unavailable" none e)
          | inr lax ↦ rw lax (proceed-Recorded true d none e h)
        ]
  after_auditor-Recorded d (ok r) h =
      elim (Bool-cases (str_eq r.verdict "block" || leb_ℤ a.configured.intervention_at r.score)) [
        | inl bad ↦ rw bad (refuse-Recorded true "auditor_blocked" (some r) "")
        | inr good ↦ rw good (proceed-Recorded true d (some r) "" h)
      ]

  on_decision-Recorded :
      (reply : Result String ModelResult) (d : Decision)
      → Recorded stamp input (on_decision config stamp input a body reply d)
  unfolding on_decision
  on_decision-Recorded reply d = elim (Bool-cases (str_eq d block)) [
    | inl blocked ↦ rw blocked (refuse-Recorded false "policy_blocked" none "")
    | inr more ↦ elim (Bool-cases (str_eq d monitor && not (str_eq config.auditor_url ""))) [
      | inl ask ↦ rw (more, ask) (after_auditor-Recorded d reply more)
      | inr pass ↦ rw (more, pass) (proceed-Recorded false d none "" more)
    ]
  ]

-- With the audit enabled, whatever the rules, the policies and the model say: where there is a
-- pipeline, the handler emits exactly one event for a request before it refuses or forwards it (none
-- without a pipeline), with the request's own id and tenant and the decision `block` exactly if the
-- request is refused. At most one shadow job is handed over, only where that event says `allow`, and
-- its audit, if it is run, adds one event for this request, which says `allow`.
pub audit_request-Recorded :
    (config : Config) (stamp : Stamp) (input : Input) (a : Assessment) (body : Bytes)
    (reply : Result String ModelResult)
    → config.audit_enabled ≡ true
    → Recorded stamp input (audit_request config stamp input a body reply)
unfolding audit_request
audit_request-Recorded config stamp input a body reply enabled =
    rw enabled (on_decision-Recorded config stamp input a body reply (decision_of a))

-- What lets a request pass.
abbrev pub Passes : Config → Assessment → Result String ModelResult → Type 0
Passes config a (err e) =
    (str_eq a.configured.auditor_failure_mode "fail_closed" ≡ false) × (config.fail_closed ≡ false)
Passes config a (ok r) =
    (str_eq r.verdict "block" ≡ false) × (leb_ℤ a.configured.intervention_at r.score ≡ false)

or_false : (x y : Bool) → (x || y) ≡ false → (x ≡ false) × (y ≡ false)
or_false x y h = ground arith

after_auditor-Passes :
    (config : Config) (stamp : Stamp) (input : Input) (a : Assessment) (body : Bytes) (d : Decision)
    (reply : Result String ModelResult)
    → (after_auditor config stamp input a body d reply).refusal ≡ none
    → Passes config a reply
unfolding after_auditor
after_auditor-Passes config stamp input a body d (err e) h =
    elim (Bool-cases
      (str_eq a.configured.auditor_failure_mode "fail_closed" || config.fail_closed)) [
        | inl closed ↦ absurd (cc (rw closed at h))
        | inr lax ↦ or_false _ _ lax
      ]
after_auditor-Passes config stamp input a body d (ok r) h =
    elim (Bool-cases (str_eq r.verdict "block" || leb_ℤ a.configured.intervention_at r.score)) [
      | inl bad ↦ absurd (cc (rw bad at h))
      | inr good ↦ or_false _ _ good
    ]

-- A request that the audit does not refuse was not decided `block`; and if it was decided
-- `monitor` with a model configured, the model answered neither `block` nor a score of at least
-- the policy's intervention threshold, or it failed while neither the policy nor the gateway
-- fails closed.
pub audit_request-Passes :
    (config : Config) (stamp : Stamp) (input : Input) (a : Assessment) (body : Bytes)
    (reply : Result String ModelResult)
    → config.audit_enabled ≡ true
    → (audit_request config stamp input a body reply).refusal ≡ none
    → (decision_of a ≢ block)
      × (((str_eq (decision_of a) monitor && not (str_eq config.auditor_url "")) ≡ false)
          ⊎ Passes config a reply)
unfolding audit_request on_decision
audit_request-Passes config stamp input a body reply enabled h =
    passes (decision_of a) (rw enabled at h)
  where
    passes :
        (d : Decision)
        → (on_decision config stamp input a body reply d).refusal ≡ none
        → (d ≢ block)
          × (((str_eq d monitor && not (str_eq config.auditor_url "")) ≡ false)
              ⊎ Passes config a reply)
    passes d k = elim (Bool-cases (str_eq d block)) [
      | inl blocked ↦ absurd (cc (rw blocked at k))
      | inr more ↦ elim (Bool-cases (str_eq d monitor && not (str_eq config.auditor_url ""))) [
        | inl ask ↦ (
          ground (arith, eq_iff d block),
          inr (after_auditor-Passes config stamp input a body d reply (rw (more, ask) at k)),
        )
        | inr pass ↦ (ground (arith, eq_iff d block), inl pass)
      ]
    ]
