-- ===== src/Config/Startup.antt =====
-- What a start-up of internal/config/config.go accepts: `Load`, then `Validate`.
use llm_security_audit_gatew.Base.{
  ℕ, suc, String, ℤ, pos, ◌<ℤ◌, List, [], ◌∷◌, Option, none, some, Bool, true, false, ◌≡◌, ◌≢◌, ◌⊎◌,
  refl, ap, inl, inr, arith, str_eq, Bool-cases, eq_iff, subst, get_elem?, zero, leb_ℤ, All,
  if◌then◌else◌,
}
use llm_security_audit_gatew.Base.Result.{Result, ok, err}
use llm_security_audit_gatew.Config.{Config, check, validate}
use llm_security_audit_gatew.Config.Load.{
  Host, Key, bool_key, int_key, positive, boolean, env_int, env_bool, bool_opt, int_opt, with_error,
  errors, keys, configured, unless_errors, load,
}

check_production :
    (contains : String → String → Bool) (environment cookie_mode : String) (c : Config)
    → environment ≡ "production"
    → check contains environment cookie_mode c ≡ none
    → (c.upstream_allow_private_networks ≡ false)
      × (c.allow_demo_bootstrap ≡ false)
      × (c.postgres_url ≢ "")
unfolding check
check_production contains environment cookie_mode c e h =
    ground (arith, eq_iff c.postgres_url "", eq_iff environment "production")

or_production :
    (environment : String)
    → (environment ≡ "") ⊎ (environment ≡ "production")
    → (if str_eq environment "" then "production" else environment) ≡ "production"
or_production environment (inl e) = rw e refl
or_production environment (inr e) = rw e refl

-- A configuration that `Validate` accepts in production, which is also the default environment,
-- reaches no private network, serves no demonstration rules and has a database.
pub validate_production :
    (contains : String → String → Bool) (c : Config)
    → validate contains c ≡ none
    → (c.environment ≡ "") ⊎ (c.environment ≡ "production")
    → (c.upstream_allow_private_networks ≡ false)
      × (c.allow_demo_bootstrap ≡ false)
      × (c.postgres_url ≢ "")
unfolding validate
validate_production contains c h e =
    check_production contains _ _ c (or_production c.environment e) h

-- The numbers of a configuration.
abbrev pub numbers : Config → List ℤ
numbers c =
    c.max_body_bytes ∷ c.max_response_bytes ∷ c.request_timeout_ms ∷ c.postgres_pool_max_conns
    ∷ c.postgres_conn_max_lifetime_ms ∷ c.postgres_conn_max_idle_ms ∷ c.outbox_claim_size
    ∷ c.admin_session_ttl_ms ∷ c.admin_login_max_failures ∷ c.admin_login_lockout_ms
    ∷ c.rate_limit_rps ∷ c.rate_limit_burst ∷ c.auditor_timeout_ms ∷ c.auditor_concurrency
    ∷ c.event_queue_size ∷ c.sse_audit_window_bytes ∷ c.sse_max_event_bytes
    ∷ c.health_probe_interval_ms ∷ c.health_probe_timeout_ms ∷ c.snapshot_refresh_interval_ms
    ∷ c.audit_records_retention_days ∷ c.outbox_retention_days ∷ c.retention_sweep_interval_ms
    ∷ c.upstream_deletion_grace_period_ms ∷ c.upstream_deletion_batch_size
    ∷ c.upstream_deletion_sweep_interval_ms ∷ []

module _ (host : Host) where
  open host use {getenv, atoi, parse_bool}

  -- How an option that is set stands in the environment.
  abbrev pub Read : Key → Type 0
  Read (bool_key key) = (b : Bool) × (parse_bool (getenv key) ≡ some b)
  Read (int_key key) = (n : ℤ) × (atoi (getenv key) ≡ some n) × (pos 0 <ℤ n)

  abbrev pub name_of : Key → String
  name_of (bool_key key) = key
  name_of (int_key key) = key

  -- Unset, or well-formed.
  abbrev pub Sound : Key → Type 0
  Sound k = (getenv (name_of k) ≡ "") ⊎ Read k

  bool_parsed :
      (key : String) (o : Option Bool) (es : List String)
      → parse_bool (getenv key) ≡ o
      → with_error host (boolean host key (getenv key) o) es ≡ []
      → Read (bool_key key) × (es ≡ [])
  bool_parsed key none es e h = absurd cc
  bool_parsed key (some b) es e h = ((b, e), h)

  int_parsed :
      (key : String) (o : Option ℤ) (es : List String)
      → atoi (getenv key) ≡ o
      → with_error host (positive host key (getenv key) o) es ≡ []
      → Read (int_key key) × (es ≡ [])
  int_parsed key none es e h = absurd cc
  int_parsed key (some n) es e h = elim (Bool-cases (leb_ℤ n (pos 0))) [
    | inl small ↦ absurd (cc (rw small at h))
    | inr big ↦ ((n, e, ground arith), rw big at h)
  ]

  errors-Sound : (ks : List Key) → errors host ks ≡ [] → All Sound ks
  unfolding errors env_bool env_int
  errors-Sound [] h = tt
  errors-Sound (bool_key key ∷ ks) h = elim (Bool-cases (str_eq (getenv key) "")) [
    | inl unset ↦ (inl ((eq_iff (getenv key) "").0 unset), errors-Sound ks (rw unset at h))
    | inr set ↦
        let r = bool_parsed key (parse_bool (getenv key)) (errors host ks) refl (rw set at h) in
        (inr r.0, errors-Sound ks r.1)
  ]
  errors-Sound (int_key key ∷ ks) h = elim (Bool-cases (str_eq (getenv key) "")) [
    | inl unset ↦ (inl ((eq_iff (getenv key) "").0 unset), errors-Sound ks (rw unset at h))
    | inr set ↦
        let r = int_parsed key (atoi (getenv key)) (errors host ks) refl (rw set at h) in
        (inr r.0, errors-Sound ks r.1)
  ]

  no_errors :
      (es : List String) (c d : Config) → unless_errors host es d ≡ ok c → (es ≡ []) × (d ≡ c)
  no_errors [] c d h = (refl, ap value h)
    where
      value : Result (List String) Config → Config
      value (ok x) = x
      value (err e) = d
  no_errors (e ∷ es) c d h = absurd cc

  loaded : (c : Config) → load host ≡ ok c → All Sound (keys host) × (configured host ≡ c)
  unfolding load
  loaded c h =
      let r = no_errors (errors host (keys host)) c (configured host) h in
      (errors-Sound (keys host) r.0, r.1)

  not_below : (n : ℤ) → pos 0 <ℤ n → leb_ℤ n (pos 0) ≡ false
  not_below n h = ground arith

  -- A number is positive unless its option is malformed.
  int_opt_pos :
      (key : String) (k : ℕ) → Sound (int_key key) → pos 0 <ℤ int_opt host key (pos (suc k))
  unfolding env_int
  int_opt_pos key k (inl unset) = rw unset (omega arith)
  int_opt_pos key k (inr (n, e, h)) = elim (Bool-cases (str_eq (getenv key) "")) [
    | inl unset ↦ rw unset (omega arith)
    | inr set ↦ rw (set, e, not_below n h) h
  ]

  All-at : (i : ℕ) (ks : List Key) (k : Key) → All Sound ks → get_elem? ks i ≡ some k → Sound k
  All-at i [] k h e = absurd cc
  All-at zero (x ∷ xs) k h e = subst Sound (ap (or_else x) e) h.0
    where
      or_else : Key → Option Key → Key
      or_else d none = d
      or_else d (some x) = x
  All-at (suc i) (x ∷ xs) k h e = All-at i xs k h.1 e

  infixr 5 ◌&◌
  ◌&◌ : {A B : Type 0} → A → B → A × B
  h & hs = (h, hs)

  configured_pos : All Sound (keys host) → All (λ n. pos 0 <ℤ n) (numbers (configured host))
  unfolding configured
  configured_pos s =
      at 2 "MAX_BODY_BYTES" 4194303 refl
      & at 3 "MAX_RESPONSE_BYTES" 16777215 refl
      & at 4 "REQUEST_TIMEOUT_MS" 119999 refl
      & at 7 "PG_POOL_MAX_CONNS" 15 refl
      & at 8 "PG_CONN_MAX_LIFETIME_MS" 1799999 refl
      & at 9 "PG_CONN_MAX_IDLE_MS" 299999 refl
      & at 10 "OUTBOX_CLAIM_SIZE" 99 refl
      & at 11 "ADMIN_SESSION_TTL_MS" 86399999 refl
      & at 12 "ADMIN_LOGIN_MAX_FAILURES" 4 refl
      & at 13 "ADMIN_LOGIN_LOCKOUT_MS" 899999 refl
      & at 14 "RATE_LIMIT_RPS" 59 refl
      & at 15 "RATE_LIMIT_BURST" 119 refl
      & at 16 "AUDITOR_TIMEOUT_MS" 349 refl
      & at 17 "AUDITOR_CONCURRENCY" 7 refl
      & at 18 "AUDIT_EVENT_QUEUE_SIZE" 999 refl
      & at 19 "SSE_AUDIT_WINDOW_BYTES" 16383 refl
      & at 20 "SSE_MAX_EVENT_BYTES" 262143 refl
      & at 21 "HEALTH_PROBE_INTERVAL_MS" 4999 refl
      & at 22 "HEALTH_PROBE_TIMEOUT_MS" 749 refl
      & at 23 "SNAPSHOT_REFRESH_INTERVAL_MS" 29999 refl
      & at 24 "AUDIT_RECORDS_RETENTION_DAYS" 29 refl
      & at 25 "OUTBOX_RETENTION_DAYS" 6 refl
      & at 26 "RETENTION_SWEEP_INTERVAL_MS" 3599999 refl
      & at 27 "UPSTREAM_DELETION_GRACE_PERIOD_MS" 86399999 refl
      & at 28 "UPSTREAM_DELETION_BATCH_SIZE" 99 refl
      & at 29 "UPSTREAM_DELETION_SWEEP_INTERVAL_MS" 59999 refl
      & tt
    where
      at :
          (i : ℕ) (key : String) (k : ℕ)
          → get_elem? (keys host) i ≡ some (int_key key)
          → pos 0 <ℤ int_opt host key (pos (suc k))
      at i key k e = int_opt_pos key k (All-at i (keys host) (int_key key) s e)

  -- A configuration that `Load` returns has no number below 1, whatever the environment holds.
  pub load_positive : (c : Config) → load host ≡ ok c → All (λ n. pos 0 <ℤ n) (numbers c)
  load_positive c h =
      let l = loaded c h in subst (λ x. All (λ n. pos 0 <ℤ n) (numbers x)) l.1 (configured_pos l.0)

  -- What a Boolean option says: its default where it is unset, else what it was parsed to.
  abbrev pub Says : String → Bool → Bool → Type 0
  Says key fallback b = ((getenv key ≡ "") × (b ≡ fallback)) ⊎ (parse_bool (getenv key) ≡ some b)

  bool_opt-Says :
      (key : String) (fallback : Bool)
      → Sound (bool_key key)
      → Says key fallback (bool_opt host key fallback)
  unfolding env_bool
  bool_opt-Says key fallback (inl unset) = rw unset (inl (refl, refl))
  bool_opt-Says key fallback (inr (b, e)) = elim (Bool-cases (str_eq (getenv key) "")) [
    | inl unset ↦ inl ((eq_iff (getenv key) "").0 unset, rw unset refl)
    | inr set ↦ inr (rw (set, e) refl)
  ]

  -- A start-up never degrades a security switch on a typing error: a switch that is set stands as
  -- it was parsed, and one whose value is no Boolean lets `Load` return no configuration at all.
  pub load_switches :
      (c : Config)
      → load host ≡ ok c
      → Says "ALLOW_DEMO_BOOTSTRAP_RULES" false c.allow_demo_bootstrap
        × Says "UPSTREAM_ALLOW_PRIVATE_NETWORKS" false c.upstream_allow_private_networks
        × Says "AUDIT_ENABLED" true c.audit_enabled
        × Says "AUDIT_FAIL_CLOSED" false c.fail_closed
  load_switches c h =
      let (s, e) = loaded c h in
      subst
        (λ x.
          Says "ALLOW_DEMO_BOOTSTRAP_RULES" false x.allow_demo_bootstrap
          × Says "UPSTREAM_ALLOW_PRIVATE_NETWORKS" false x.upstream_allow_private_networks
          × Says "AUDIT_ENABLED" true x.audit_enabled
          × Says "AUDIT_FAIL_CLOSED" false x.fail_closed)
        e
        (unfold configured in
          (
            bool_opt-Says "ALLOW_DEMO_BOOTSTRAP_RULES" false
                (at 0 "ALLOW_DEMO_BOOTSTRAP_RULES" refl),
            bool_opt-Says "UPSTREAM_ALLOW_PRIVATE_NETWORKS" false
                (at 1 "UPSTREAM_ALLOW_PRIVATE_NETWORKS" refl),
            bool_opt-Says "AUDIT_ENABLED" true (at 5 "AUDIT_ENABLED" refl),
            bool_opt-Says "AUDIT_FAIL_CLOSED" false (at 6 "AUDIT_FAIL_CLOSED" refl),
          ))
    where
      at :
          (i : ℕ) (key : String)
          → get_elem? (keys host) i ≡ some (bool_key key)
          → Sound (bool_key key)
      at i key e = All-at i (keys host) (bool_key key) (loaded c h).0 e
