-- ===== src/Rules/Engine.antt =====
-- internal/rule/engine.go: what `Replace` compiles. The regular expressions of the standard library
-- are a parameter; the matching automaton is not modelled.
use llm_security_audit_gatew.Base.{
  String, ℤ, pos, leb_ℤ, List, [], ◌∷◌, Option, none, some, Bool, true, false, str_eq,
  if◌then◌else◌, ◌≡◌, ◌≢◌, ◌⊎◌, refl, inl, inr, ◌<ℤ◌, arith, eq_iff, All, Bool-cases,
}
use llm_security_audit_gatew.Base.Result.{Result, ok, err}

pub record Definition : Type 0 where
  pub id : String
  pub name : String
  pub pattern : String
  pub severity : String
  pub action : String
  pub weight : ℤ
  pub regex : Bool

module _ (Regexp : Type 0) (compile : String → Result String Regexp) where
  pub record CompiledRule : Type 0 where
    pub definition : Definition
    pub re : Option Regexp

  -- The defaults of the loop of `Replace`.
  unfoldable pub with_defaults : Definition → Definition
  with_defaults d = record d {
    weight = if leb_ℤ d.weight (pos 0) then pos 10 else d.weight;
    severity = if str_eq d.severity "" then "medium" else d.severity;
    action = if str_eq d.action "" then "monitor" else d.action;
  }

  abbrev pub with_rule :
      Definition
      → Option Regexp
      → Result String (List CompiledRule)
      → Result String (List CompiledRule)
  with_rule d re (err e) = err e
  with_rule d re (ok rules) = ok (record { definition = d; re = re } ∷ rules)

  abbrev pub compiled :
      Definition
      → Result String Regexp
      → Result String (List CompiledRule)
      → Result String (List CompiledRule)
  compiled d (err e) rest = err e
  compiled d (ok re) rest = with_rule d (some re) rest

  -- The loop of `Replace`; a rule with no pattern is left out.
  unfoldable pub replace : List Definition → Result String (List CompiledRule)
  replace [] = ok []
  replace (d ∷ ds) =
      let rest = replace ds in
      let literal = with_rule (with_defaults d) none rest in
      let expression = compiled (with_defaults d) (compile d.pattern) rest in
      if str_eq d.pattern "" then rest else if d.regex then expression else literal

  -- What the engine relies on in a rule.
  pub record IsUsable (r : CompiledRule) : Type 0 where
    pub has_pattern : r.definition.pattern ≢ ""
    pub has_weight : pos 0 <ℤ r.definition.weight
    pub has_severity : r.definition.severity ≢ ""
    pub has_action : r.definition.action ≢ ""
    pub compiled_if : (r.definition.regex ≡ false) ⊎ (r.re ≢ none)

  abbrev pub Usable : Result String (List CompiledRule) → Type 0
  Usable (err e) = Unit
  Usable (ok rules) = All IsUsable rules

  filled :
      (text fallback : String)
      → str_eq fallback "" ≡ false
      → (if str_eq text "" then fallback else text) ≢ ""
  filled text fallback h = ground (arith, eq_iff text "", eq_iff fallback "")

  with_rule-Usable :
      (d : Definition) (re : Option Regexp) (r : Result String (List CompiledRule))
      → d.pattern ≢ ""
      → (d.regex ≡ false) ⊎ (re ≢ none)
      → Usable r
      → Usable (with_rule (with_defaults d) re r)
  with_rule-Usable d re (err e) p c u = tt
  with_rule-Usable d re (ok rules) p c u = (
    record {
      has_pattern = unfold with_defaults in p;
      has_weight = unfold with_defaults in ground arith;
      has_severity = unfold with_defaults in filled d.severity "medium" refl;
      has_action = unfold with_defaults in filled d.action "monitor" refl;
      compiled_if = unfold with_defaults in c;
    },
    u,
  )

  compiled-Usable :
      (d : Definition) (c : Result String Regexp) (r : Result String (List CompiledRule))
      → d.pattern ≢ ""
      → Usable r
      → Usable (compiled (with_defaults d) c r)
  compiled-Usable d (err e) r p u = tt
  compiled-Usable d (ok re) r p u = with_rule-Usable d (some re) r p (inr (λ h. cc)) u

  -- Every rule of a snapshot that `Replace` stores has a pattern, a positive weight, a severity and
  -- an action, and one that is a regular expression was compiled.
  pub replace-Usable : (ds : List Definition) → Usable (replace ds)
  unfolding replace
  replace-Usable [] = tt
  replace-Usable (d ∷ ds) = elim (Bool-cases (str_eq d.pattern "")) [
    | inl empty ↦ rw empty (replace-Usable ds)
    | inr named ↦
        rw named (chosen d.regex refl (ground (arith, eq_iff d.pattern "")) (replace-Usable ds))
  ]
    where
      chosen :
          (b : Bool)
          → d.regex ≡ b
          → d.pattern ≢ ""
          → Usable (replace ds)
          → Usable (
              if b
              then compiled (with_defaults d) (compile d.pattern) (replace ds)
              else with_rule (with_defaults d) none (replace ds))
      chosen true e p u = compiled-Usable d (compile d.pattern) (replace ds) p u
      chosen false e p u = with_rule-Usable d none (replace ds) p (inl e) u
