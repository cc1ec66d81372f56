-- ===== src/Policy/Resolution.antt =====
-- Which policy `Resolve` of internal/policy/policy.go picks.
use Prim.Native.String.{◌++◌}
use mathlib.Core.List.{Memᴰ}
use llm_security_audit_gatew.Base.{
  String, ℤ, pos, negsuc, ltb_ℤ, ◌≤ℤ◌, ◌<ℤ◌, List, [], ◌∷◌, true, false, ◌&&◌, ◌≡◌, ◌⊎◌, refl, sym,
  subst, arith, Bool-cases, inl, inr, eq_iff, str_eq, All,
}
use llm_security_audit_gatew.Policy.Resolver.{Snapshot, specificity, resolve_from, resolve}
use llm_security_audit_gatew.Policy.{Policy, default_policy, normalized}

-- A candidate that applies is global or of this very tenant, and for this route or for all.
pub specificity_applies :
    (c : Policy) (tenant route : String)
    → pos 0 ≤ℤ specificity c tenant route
    → ((c.scope ≡ "tenant:" ++ tenant) ⊎ (c.scope ≡ "global"))
      × ((c.route_path ≡ route) ⊎ (c.route_path ≡ "*"))
unfolding specificity
specificity_applies c tenant route h = ground (
  arith,
  eq_iff c.scope ("tenant:" ++ tenant),
  eq_iff c.scope "global",
  eq_iff c.route_path route,
  eq_iff c.route_path "*",
)

module _ (tenant route direction : String) where
  abbrev spec : Policy → ℤ
  spec c = specificity c tenant route

  -- No policy of this direction is more specific than `bound`.
  abbrev pub NoneAbove : ℤ → List Policy → Type 0
  NoneAbove bound =
      All (λ p. (str_eq p.direction direction ≡ false) ⊎ (specificity p tenant route ≤ℤ bound))

  -- `r` is a listed policy of this direction, above `bound` and not below any other.
  pub record Picked (bound : ℤ) (r : Policy) (ps : List Policy) : Type 0 where
    pub listed : Memᴰ r ps
    pub same_direction : r.direction ≡ direction
    pub above : bound <ℤ specificity r tenant route
    pub highest : NoneAbove (specificity r tenant route) ps

  better_true :
      (c : Policy) (bound : ℤ)
      → (str_eq c.direction direction && ltb_ℤ bound (spec c)) ≡ true
      → (c.direction ≡ direction) × (bound <ℤ spec c)
  better_true c bound h = ground (arith, eq_iff c.direction direction)

  better_false :
      (c : Policy) (bound : ℤ)
      → (str_eq c.direction direction && ltb_ℤ bound (spec c)) ≡ false
      → (str_eq c.direction direction ≡ false) ⊎ (spec c ≤ℤ bound)
  better_false c bound h = ground arith

  abbrev Outcome : Policy → ℤ → List Policy → Policy → Type 0
  Outcome best bound ps r = ((r ≡ best) × NoneAbove bound ps) ⊎ Picked bound r ps

  taken :
      (c best : Policy) (bound : ℤ) (ps : List Policy) (r : Policy)
      → c.direction ≡ direction
      → bound <ℤ spec c
      → Outcome c (spec c) ps r
      → Outcome best bound (c ∷ ps) r
  taken c best bound ps r dir higher (inl (e, above)) =
      subst (Outcome best bound (c ∷ ps)) (sym e) (
        inr (record {
          listed = Memᴰ.head refl;
          same_direction = dir;
          above = higher;
          highest = (inr (omega arith), above);
        }))
  taken c best bound ps r dir higher (inr p) = inr (record {
    listed = Memᴰ.tail p.listed;
    same_direction = p.same_direction;
    above = omega (arith, p.above, higher);
    highest = (inr (omega (arith, p.above)), p.highest);
  })

  passed :
      (c best : Policy) (bound : ℤ) (ps : List Policy) (r : Policy)
      → (str_eq c.direction direction ≡ false) ⊎ (spec c ≤ℤ bound)
      → Outcome best bound ps r
      → Outcome best bound (c ∷ ps) r
  passed c best bound ps r low (inl (e, above)) = inl (e, (low, above))
  passed c best bound ps r low (inr p) = inr (record {
    listed = Memᴰ.tail p.listed;
    same_direction = p.same_direction;
    above = p.above;
    highest = (raise low, p.highest);
  })
    where
      raise :
          (str_eq c.direction direction ≡ false) ⊎ (spec c ≤ℤ bound)
          → (str_eq c.direction direction ≡ false) ⊎ (spec c ≤ℤ spec r)
      raise (inl e) = inl e
      raise (inr le) = inr (omega (arith, p.above))

  resolve_from_lem :
      (ps : List Policy) (best : Policy) (bound : ℤ)
      → Outcome best bound ps (resolve_from tenant route direction best bound ps)
  unfolding resolve_from
  resolve_from_lem [] best bound = inl (refl, tt)
  resolve_from_lem (c ∷ ps) best bound =
      elim (Bool-cases (str_eq c.direction direction && ltb_ℤ bound (spec c))) [
        | inl b ↦
            let (dir, higher) = better_true c bound b in
            rw b (taken c best bound ps _ dir higher (resolve_from_lem ps c (spec c)))
        | inr b ↦
            rw b
              (passed c best bound ps _ (better_false c bound b) (resolve_from_lem ps best bound))
      ]

  -- `Resolve` returns the normal form of a policy of the snapshot that applies to this tenant,
  -- route and direction and that no other such policy exceeds in specificity; or, where no policy
  -- of the snapshot applies, the normal form of the default policy.
  pub resolve_best :
      (s : Snapshot)
      → ((c : Policy) × (resolve s tenant route direction ≡ normalized c)
          × Picked (negsuc 0) c s.policies
          × ((c.scope ≡ "tenant:" ++ tenant) ⊎ (c.scope ≡ "global"))
          × ((c.route_path ≡ route) ⊎ (c.route_path ≡ "*")))
        ⊎ ((resolve s tenant route direction ≡ normalized default_policy)
            × NoneAbove (negsuc 0) s.policies)
  unfolding resolve
  resolve_best s = elim (resolve_from_lem s.policies default_policy (negsuc 0)) [
    | inl (e, above) ↦ inr (rw e refl, above)
    | inr p ↦
        let c = resolve_from tenant route direction default_policy (negsuc 0) s.policies in
        let a = specificity_applies c tenant route (omega (arith, p.above)) in
        inl (c, refl, p, a.0, a.1)
  ]
