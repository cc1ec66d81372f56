-- ===== src/Rules/Isolation.antt =====
-- Which engine internal/rule/registry.go gives to a tenant.
use llm_security_audit_gatew.Base.{
  String, List, [], ◌∷◌, Option, none, some, false, lookup, insert, lookup-insert, eq_iff, eq_refl,
  ◌≡◌, ◌≢◌, refl, ◌∙◌, inl, inr, arith, All, Bool-cases,
}
use llm_security_audit_gatew.Base.Result.{Result, ok, err}
use llm_security_audit_gatew.Audit.{Input, Verdict}
use llm_security_audit_gatew.Rules.Engine.{Definition}
use llm_security_audit_gatew.Rules.Registry.{
  Scope, global_scope, tenant_scope, Loaded, Registry, is_resolved, store_engine, ensure_tenant,
  engine_for, audit, mark_stale, set_global_source, refresh_engine, refresh,
}

module _ {E : Type 0} (new : List Definition → Result String E)
    (audit_with : E → Input → Verdict) where
  -- What changes a registry.
  pub data Operation : Type 0 where
    audited : String → Option Loaded → Input → Operation
    refreshed : Scope → Option Loaded → Operation
    marked : Operation
    sourced : String → Operation

  unfoldable pub apply : Operation → Registry E → Registry E
  apply (audited tenant answer input) r = (audit new audit_with answer tenant input r).0
  apply (refreshed scope answer) r = (refresh new audit_with answer scope r).0
  apply marked r = mark_stale new audit_with r
  apply (sourced source) r = set_global_source new audit_with source r

  unfoldable pub run : List Operation → Registry E → Registry E
  run [] r = r
  run (o ∷ os) r = run os (apply o r)

  -- An operation of other tenants than this one.
  abbrev pub Elsewhere : String → Operation → Type 0
  Elsewhere tenant (audited other answer input) = other ≢ tenant
  Elsewhere tenant (refreshed (tenant_scope other) answer) = other ≢ tenant
  Elsewhere tenant (refreshed global_scope answer) = ⊥
  Elsewhere tenant marked = Unit
  Elsewhere tenant (sourced source) = Unit

  lookup-insert_other :
      {V : Type 0} (key other : String) (v : V) (m : List (String × V))
      → other ≢ key
      → lookup key (insert other v m) ≡ lookup key m
  lookup-insert_other key other v m ne = rw lookup-insert (ground (arith, eq_iff other key))

  -- What a tenant sees of the registry.
  pub record Same (tenant : String) (r s : Registry E) : Type 0 where
    pub snapshot : lookup tenant s.tenants ≡ lookup tenant r.tenants
    pub resolution : lookup tenant s.resolved ≡ lookup tenant r.resolved
    pub same_global : s.global ≡ r.global
    pub same_version : s.global_version ≡ r.global_version

  same : (tenant : String) (r : Registry E) → Same tenant r r
  same tenant r = record {
    snapshot = refl;
    resolution = refl;
    same_global = refl;
    same_version = refl;
  }

  store_engine-Same :
      (tenant other version : String) (e : Result String E) (r : Registry E)
      → other ≢ tenant
      → Same tenant r (
          store_engine new audit_with other version e
            (record r { resolved = insert other tt r.resolved }))
  store_engine-Same tenant other version (err e) r ne = record {
    snapshot = refl;
    resolution = lookup-insert_other tenant other tt r.resolved ne;
    same_global = refl;
    same_version = refl;
  }
  store_engine-Same tenant other version (ok e) r ne = record {
    snapshot = lookup-insert_other tenant other (e, version) r.tenants ne;
    resolution = lookup-insert_other tenant other tt r.resolved ne;
    same_global = refl;
    same_version = refl;
  }

  ensure_tenant-Same :
      (tenant other : String) (answer : Option Loaded) (r : Registry E)
      → other ≢ tenant
      → Same tenant r (ensure_tenant new audit_with answer other r)
  unfolding ensure_tenant
  ensure_tenant-Same tenant other none r ne = same tenant r
  ensure_tenant-Same tenant other (some (err e)) r ne =
      elim (Bool-cases (is_resolved new audit_with other r)) [
        | inl done ↦ rw done (same tenant r)
        | inr todo ↦ rw todo (same tenant r)
      ]
  ensure_tenant-Same tenant other (some (ok (ds, v))) r ne =
      elim (Bool-cases (is_resolved new audit_with other r)) [
        | inl done ↦ rw done (same tenant r)
        | inr todo ↦ rw todo (store_engine-Same tenant other v (new ds) r ne)
      ]

  refresh_engine-Same :
      (tenant other version : String) (e : Result String E) (r : Registry E)
      → other ≢ tenant
      → Same tenant r (refresh_engine new audit_with (tenant_scope other) version e r).0
  refresh_engine-Same tenant other version (err e) r ne = same tenant r
  refresh_engine-Same tenant other version (ok e) r ne =
      store_engine-Same tenant other version (ok e) r ne

  apply-Same :
      (tenant : String) (o : Operation) (r : Registry E)
      → Elsewhere tenant o
      → Same tenant r (apply o r)
  unfolding apply audit refresh
  apply-Same tenant (audited other answer input) r ne = ensure_tenant-Same tenant other answer r ne
  apply-Same tenant (refreshed (tenant_scope other) none) r ne = same tenant r
  apply-Same tenant (refreshed (tenant_scope other) (some (err e))) r ne = same tenant r
  apply-Same tenant (refreshed (tenant_scope other) (some (ok (ds, v)))) r ne =
      refresh_engine-Same tenant other v (new ds) r ne
  apply-Same tenant (refreshed global_scope answer) r ne = absurd ne
  apply-Same tenant marked r ne = record {
    snapshot = refl;
    resolution = refl;
    same_global = refl;
    same_version = refl;
  }
  apply-Same tenant (sourced source) r ne = record {
    snapshot = refl;
    resolution = refl;
    same_global = refl;
    same_version = refl;
  }

  run-Same :
      (tenant : String) (os : List Operation) (r : Registry E)
      → All (Elsewhere tenant) os
      → Same tenant r (run os r)
  unfolding run
  run-Same tenant [] r h = same tenant r
  run-Same tenant (o ∷ os) r h =
      let a = apply-Same tenant o r h.0 in
      let b = run-Same tenant os (apply o r) h.1 in
      record {
        snapshot = b.snapshot ∙ a.snapshot;
        resolution = b.resolution ∙ a.resolution;
        same_global = b.same_global ∙ a.same_global;
        same_version = b.same_version ∙ a.same_version;
      }

  -- Whatever is audited or refreshed for other tenants, and whatever their rules are, a tenant is
  -- audited by the same engine, under the same version, as before.
  pub run_isolated :
      (tenant : String) (os : List Operation) (r : Registry E)
      → All (Elsewhere tenant) os
      → engine_for new audit_with tenant (run os r) ≡ engine_for new audit_with tenant r
  unfolding engine_for
  run_isolated tenant os r h =
      let s = run-Same tenant os r h in rw (s.snapshot, s.same_global, s.same_version) refl

  -- A tenant without rules resolved yet is audited, once the loader answers with rules that
  -- compile, by those rules under their version; on an error by what it was audited by before,
  -- and it stays unresolved, so that the next request asks again.
  pub audit_first :
      (tenant : String) (r : Registry E) (ds : List Definition) (version reason : String) (e : E)
      → is_resolved new audit_with tenant r ≡ false
      → new ds ≡ ok e
      → (engine_for new audit_with tenant
            (ensure_tenant new audit_with (some (ok (ds, version))) tenant r)
          ≡ (e, version))
        × (ensure_tenant new audit_with (some (err reason)) tenant r ≡ r)
  unfolding engine_for ensure_tenant
  audit_first tenant r ds version reason e fresh compiles =
      (rw (fresh, compiles) (rw lookup-insert (rw (eq_refl tenant) refl)), rw fresh refl)
