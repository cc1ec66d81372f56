-- ===== src/Rules/Registry.antt =====
-- internal/rule/registry.go. Every scope that the gateway passes is `global` or `tenant:` with the
-- tenant's name, so a scope is one of the two. The engine, its compiler `New` and its audit are
-- parameters; Rules/Engine has what `New` compiles.
use llm_security_audit_gatew.Base.{
  String, List, [], Option, none, some, Bool, true, false, not, ◌&&◌, str_eq, is_some, lookup,
  insert, map, if◌then◌else◌,
}
use llm_security_audit_gatew.Base.Result.{Result, ok, err}
use llm_security_audit_gatew.Audit.{Input, Verdict}
use llm_security_audit_gatew.Rules.Engine.{Definition}

pub data Scope : Type 0 where
  global_scope : Scope
  tenant_scope : String → Scope

-- What a rule loader answers: definitions and their version.
abbrev pub Loaded : Type 0
Loaded = Result String (List Definition × String)

pub record Registry (E : Type 0) : Type 0 where
  pub global : E
  pub global_version : String
  pub global_source : String
  pub global_stale : Bool
  pub tenants : List (String × (E × String))
  pub resolved : List (String × Unit {0})

pub record Status : Type 0 where
  pub version : String
  pub source : String
  pub stale : Bool

module _ {E : Type 0} (new : List Definition → Result String E)
    (audit_with : E → Input → Verdict) where
  abbrev pub with_engine : Result String E → Result String (Registry E)
  with_engine (err e) = err e
  with_engine (ok engine) = ok (record {
    global = engine;
    global_version = "bootstrap";
    global_source = "demo";
    global_stale = false;
    tenants = [];
    resolved = [];
  })

  unfoldable pub new_registry : List Definition → Result String (Registry E)
  new_registry bootstrap = with_engine (new bootstrap)

  abbrev pub ready : Registry E → Bool
  ready r = str_eq r.global_source "managed" && not r.global_stale

  abbrev pub status : Registry E → Status
  status r = record { version = r.global_version; source = r.global_source; stale = r.global_stale }

  abbrev pub mark_stale : Registry E → Registry E
  mark_stale r = record r { global_stale = true }

  abbrev pub set_global_source : String → Registry E → Registry E
  set_global_source source r = record r { global_source = source }

  abbrev pub is_resolved : String → Registry E → Bool
  is_resolved tenant r = is_some (lookup tenant r.resolved)

  -- An engine that does not compile leaves the tenant resolved, under the global snapshot.
  abbrev pub store_engine : String → String → Result String E → Registry E → Registry E
  store_engine tenant version (err e) r = r
  store_engine tenant version (ok engine) r = record r {
    tenants = insert tenant (engine, version) r.tenants;
  }

  -- `EnsureTenant` under its second lock, on the loader's answer.
  abbrev pub store_tenant : String → Loaded → Registry E → Registry E
  store_tenant tenant (err e) r = r
  store_tenant tenant (ok (definitions, version)) r =
      store_engine tenant version (new definitions)
        (record r { resolved = insert tenant tt r.resolved })

  -- `EnsureTenant`; the answer is `none` where the registry has no loader.
  unfoldable pub ensure_tenant : Option Loaded → String → Registry E → Registry E
  ensure_tenant none tenant r = r
  ensure_tenant (some answer) tenant r =
      if is_resolved tenant r then r else store_tenant tenant answer r

  abbrev pub engine_or_global : Registry E → Option (E × String) → E × String
  engine_or_global r none = (r.global, r.global_version)
  engine_or_global r (some snapshot) = snapshot

  -- The engine and the version that `Audit` takes for a tenant.
  unfoldable pub engine_for : String → Registry E → E × String
  engine_for tenant r = engine_or_global r (lookup tenant r.tenants)

  unfoldable pub audit :
      Option Loaded → String → Input → Registry E → Registry E × (Verdict × String)
  unfolding ensure_tenant engine_for
  audit answer tenant input r =
      let r' = ensure_tenant answer tenant r in
      let (engine, version) = engine_for tenant r' in (r', (audit_with engine input, version))

  -- `TenantScopes`, before the sort.
  abbrev pub tenant_scopes : Registry E → List Scope
  tenant_scopes r = map (λ entry. tenant_scope entry.0) r.resolved

  abbrev pub put : Scope → E → String → Registry E → Registry E
  put global_scope engine version r = record r {
    global = engine;
    global_version = version;
    global_stale = false;
  }
  put (tenant_scope tenant) engine version r = record r {
    tenants = insert tenant (engine, version) r.tenants;
    resolved = insert tenant tt r.resolved;
  }

  abbrev pub refresh_engine :
      Scope → String → Result String E → Registry E → Registry E × Option String
  refresh_engine scope version (err e) r = (r, some e)
  refresh_engine scope version (ok engine) r = (put scope engine version r, none)

  unfoldable pub refresh : Option Loaded → Scope → Registry E → Registry E × Option String
  refresh none scope r = (r, none)
  refresh (some (err e)) scope r = (r, some e)
  refresh (some (ok (definitions, version))) scope r =
      refresh_engine scope version (new definitions) r
