-- ===== src/Audit/Redaction.antt =====
-- What `RedactEvidence` of internal/audit/types.go removes from an event and what it keeps.
use llm_security_audit_gatew.Base.{
  [], Option, none, some, false, str_eq, lookup, lookup-insert, eq_iff, ◌≡◌, ◌⊎◌, refl, inl, inr,
  Bool-cases,
}
use llm_security_audit_gatew.Audit.{ModelResult, Event, drop_evidence, redact_evidence}

abbrev pub NoEvidence : Option ModelResult → Type 0
NoEvidence none = Unit
NoEvidence (some r) = r.evidence ≡ ""

drop_evidence-NoEvidence : (o : Option ModelResult) → NoEvidence (drop_evidence o)
drop_evidence-NoEvidence none = tt
drop_evidence-NoEvidence (some r) = elim (Bool-cases (str_eq r.evidence "")) [
  | inl empty ↦ rw empty ((eq_iff r.evidence "").0 empty)
  | inr quoted ↦ rw quoted refl
]

pub record Redacted (before after : Event) : Type 0 where
  pub no_evidence : NoEvidence after.auditor
  pub same_event : after.event_id ≡ before.event_id
  pub same_decision : after.decision ≡ before.decision
  pub same_score : after.risk_score ≡ before.risk_score
  pub same_hash : after.content_sha256 ≡ before.content_sha256
  pub matches_removed :
      ((str_eq before.decision "redact" ≡ false) × (after.matches ≡ before.matches))
      ⊎ ((before.decision ≡ "redact")
          × (after.matches ≡ [])
          × (lookup "evidence_redacted" after.metadata ≡ some "true"))

-- No event that went through `RedactEvidence` quotes the model's evidence; one decided `redact`
-- has no rule matches left and says so, any other keeps them; identity, decision, score and hash
-- stay.
pub redact_evidence-Redacted : (e : Event) → Redacted e (redact_evidence e)
unfolding redact_evidence
redact_evidence-Redacted e = elim (Bool-cases (str_eq e.decision "redact")) [
  | inl redact ↦ rw redact (record {
    no_evidence = drop_evidence-NoEvidence e.auditor;
    same_event = refl;
    same_decision = refl;
    same_score = refl;
    same_hash = refl;
    matches_removed = inr ((eq_iff e.decision "redact").0 redact, refl, rw lookup-insert refl);
  })
  | inr other ↦ rw other (record {
    no_evidence = drop_evidence-NoEvidence e.auditor;
    same_event = refl;
    same_decision = refl;
    same_score = refl;
    same_hash = refl;
    matches_removed = inl (other, refl);
  })
]
