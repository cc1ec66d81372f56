-- ===== src/Config/Load.antt =====
-- internal/config/config.go: `Load`. The environment and the parsers of the standard library are
-- parameters.
use llm_security_audit_gatew.Base.{
  String, ℤ, pos, leb_ℤ, List, [], ◌∷◌, Option, none, some, Bool, true, false, not, str_eq, concat,
  if◌then◌else◌,
}
use llm_security_audit_gatew.Base.Result.{Result, ok, err}
use llm_security_audit_gatew.Config.{Config}

pub record Host : Type 0 where
  pub getenv : String → String
  pub atoi : String → Option ℤ
  pub parse_bool : String → Option Bool
  pub to_lower : String → String
  pub trim_space : String → String
  pub split_commas : String → List String
  pub quote : String → String

-- The options whose malformed values `Load` collects.
pub data Key : Type 0 where
  bool_key : String → Key
  int_key : String → Key

module _ (host : Host) where
  open host use {getenv, atoi, parse_bool, to_lower, trim_space, split_commas, quote}

  unfoldable pub env : String → String → String
  env key fallback = if not (str_eq (getenv key) "") then getenv key else fallback

  unfoldable pub list_parts : List String → List String
  list_parts [] = []
  list_parts (part ∷ parts) =
      let rest = list_parts parts in
      if not (str_eq (trim_space part) "") then trim_space part ∷ rest else rest

  unfoldable pub env_list : String → List String
  env_list key =
      let value = trim_space (getenv key) in
      if str_eq value "" then [] else list_parts (split_commas value)

  abbrev pub not_positive : String → String → Result String ℤ
  not_positive key raw = err (concat (key ∷ " must be a positive integer, got " ∷ quote raw ∷ []))

  abbrev pub positive : String → String → Option ℤ → Result String ℤ
  positive key raw none = not_positive key raw
  positive key raw (some value) = if leb_ℤ value (pos 0) then not_positive key raw else ok value

  unfoldable pub env_int : String → ℤ → Result String ℤ
  env_int key fallback =
      if str_eq (getenv key) "" then ok fallback else positive key (getenv key) (atoi (getenv key))

  abbrev pub boolean : String → String → Option Bool → Result String Bool
  boolean key raw none =
      err (concat (key ∷ " must be a boolean (true/false), got " ∷ quote raw ∷ []))
  boolean key raw (some value) = ok value

  unfoldable pub env_bool : String → Bool → Result String Bool
  env_bool key fallback =
      if str_eq (getenv key) ""
      then ok fallback
      else boolean key (getenv key) (parse_bool (getenv key))

  -- What `boolOpt` and `intOpt` return, which is Go's zero value with an error.
  abbrev pub value_or : {A : Type 0} → A → Result String A → A
  value_or zero (ok value) = value
  value_or zero (err e) = zero

  abbrev pub bool_opt : String → Bool → Bool
  bool_opt key fallback = value_or false (env_bool key fallback)

  abbrev pub int_opt : String → ℤ → ℤ
  int_opt key fallback = value_or (pos 0) (env_int key fallback)

  -- What they add to the list of errors.
  abbrev pub with_error : {A : Type 0} → Result String A → List String → List String
  with_error (ok value) errs = errs
  with_error (err e) errs = e ∷ errs

  unfoldable pub errors : List Key → List String
  errors [] = []
  errors (bool_key key ∷ keys) = with_error (env_bool key false) (errors keys)
  errors (int_key key ∷ keys) = with_error (env_int key (pos 1)) (errors keys)

  abbrev pub keys : List Key
  keys =
      bool_key "ALLOW_DEMO_BOOTSTRAP_RULES"
      ∷ bool_key "UPSTREAM_ALLOW_PRIVATE_NETWORKS"
      ∷ int_key "MAX_BODY_BYTES"
      ∷ int_key "MAX_RESPONSE_BYTES"
      ∷ int_key "REQUEST_TIMEOUT_MS"
      ∷ bool_key "AUDIT_ENABLED"
      ∷ bool_key "AUDIT_FAIL_CLOSED"
      ∷ int_key "PG_POOL_MAX_CONNS"
      ∷ int_key "PG_CONN_MAX_LIFETIME_MS"
      ∷ int_key "PG_CONN_MAX_IDLE_MS"
      ∷ int_key "OUTBOX_CLAIM_SIZE"
      ∷ int_key "ADMIN_SESSION_TTL_MS"
      ∷ int_key "ADMIN_LOGIN_MAX_FAILURES"
      ∷ int_key "ADMIN_LOGIN_LOCKOUT_MS"
      ∷ int_key "RATE_LIMIT_RPS"
      ∷ int_key "RATE_LIMIT_BURST"
      ∷ int_key "AUDITOR_TIMEOUT_MS"
      ∷ int_key "AUDITOR_CONCURRENCY"
      ∷ int_key "AUDIT_EVENT_QUEUE_SIZE"
      ∷ int_key "SSE_AUDIT_WINDOW_BYTES"
      ∷ int_key "SSE_MAX_EVENT_BYTES"
      ∷ int_key "HEALTH_PROBE_INTERVAL_MS"
      ∷ int_key "HEALTH_PROBE_TIMEOUT_MS"
      ∷ int_key "SNAPSHOT_REFRESH_INTERVAL_MS"
      ∷ int_key "AUDIT_RECORDS_RETENTION_DAYS"
      ∷ int_key "OUTBOX_RETENTION_DAYS"
      ∷ int_key "RETENTION_SWEEP_INTERVAL_MS"
      ∷ int_key "UPSTREAM_DELETION_GRACE_PERIOD_MS"
      ∷ int_key "UPSTREAM_DELETION_BATCH_SIZE"
      ∷ int_key "UPSTREAM_DELETION_SWEEP_INTERVAL_MS"
      ∷ []

  unfoldable pub configured : Config
  unfolding env env_list
  configured = record {
    version = "";
    environment = env "GATEWAY_ENV" "production";
    allow_demo_bootstrap = bool_opt "ALLOW_DEMO_BOOTSTRAP_RULES" false;
    upstream_allow_private_networks = bool_opt "UPSTREAM_ALLOW_PRIVATE_NETWORKS" false;
    listen_addr = env "GATEWAY_LISTEN_ADDR" ":8080";
    admin_addr = env "GATEWAY_ADMIN_ADDR" ":8081";
    max_body_bytes = int_opt "MAX_BODY_BYTES" (pos 4194304);
    max_response_bytes = int_opt "MAX_RESPONSE_BYTES" (pos 16777216);
    request_timeout_ms = int_opt "REQUEST_TIMEOUT_MS" (pos 120000);
    audit_enabled = bool_opt "AUDIT_ENABLED" true;
    fail_closed = bool_opt "AUDIT_FAIL_CLOSED" false;
    postgres_url = getenv "POSTGRES_URL";
    postgres_pool_max_conns = int_opt "PG_POOL_MAX_CONNS" (pos 16);
    postgres_conn_max_lifetime_ms = int_opt "PG_CONN_MAX_LIFETIME_MS" (pos 1800000);
    postgres_conn_max_idle_ms = int_opt "PG_CONN_MAX_IDLE_MS" (pos 300000);
    outbox_claim_size = int_opt "OUTBOX_CLAIM_SIZE" (pos 100);
    redis_url = getenv "REDIS_URL";
    kafka_brokers = env_list "KAFKA_BROKERS";
    kafka_audit_topic = env "KAFKA_AUDIT_TOPIC" "audit.events";
    kafka_audit_dlq_topic = env "KAFKA_AUDIT_DLQ_TOPIC" "";
    kafka_consumer_group = env "KAFKA_CONSUMER_GROUP" "audit-clickhouse-v1";
    clickhouse_dsn = getenv "CLICKHOUSE_DSN";
    consumer_listen_addr = env "AUDIT_CONSUMER_LISTEN_ADDR" ":9090";
    encryption_key_file = env "GATEWAY_ENCRYPTION_KEY_FILE" "/var/lib/gateway/keys/encryption.key";
    admin_session_ttl_ms = int_opt "ADMIN_SESSION_TTL_MS" (pos 86400000);
    admin_cookie_secure_mode = to_lower (env "ADMIN_COOKIE_SECURE_MODE" "auto");
    admin_trusted_origins = env_list "ADMIN_TRUSTED_ORIGINS";
    admin_login_max_failures = int_opt "ADMIN_LOGIN_MAX_FAILURES" (pos 5);
    admin_login_lockout_ms = int_opt "ADMIN_LOGIN_LOCKOUT_MS" (pos 900000);
    rate_limit_rps = int_opt "RATE_LIMIT_RPS" (pos 60);
    rate_limit_burst = int_opt "RATE_LIMIT_BURST" (pos 120);
    auditor_url = getenv "AUDITOR_URL";
    auditor_model = env "AUDITOR_MODEL" "http-auditor";
    auditor_timeout_ms = int_opt "AUDITOR_TIMEOUT_MS" (pos 350);
    auditor_concurrency = int_opt "AUDITOR_CONCURRENCY" (pos 8);
    event_queue_size = int_opt "AUDIT_EVENT_QUEUE_SIZE" (pos 1000);
    sse_audit_window_bytes = int_opt "SSE_AUDIT_WINDOW_BYTES" (pos 16384);
    sse_max_event_bytes = int_opt "SSE_MAX_EVENT_BYTES" (pos 262144);
    health_probe_interval_ms = int_opt "HEALTH_PROBE_INTERVAL_MS" (pos 5000);
    health_probe_timeout_ms = int_opt "HEALTH_PROBE_TIMEOUT_MS" (pos 750);
    snapshot_refresh_interval_ms = int_opt "SNAPSHOT_REFRESH_INTERVAL_MS" (pos 30000);
    audit_records_retention_days = int_opt "AUDIT_RECORDS_RETENTION_DAYS" (pos 30);
    outbox_retention_days = int_opt "OUTBOX_RETENTION_DAYS" (pos 7);
    retention_sweep_interval_ms = int_opt "RETENTION_SWEEP_INTERVAL_MS" (pos 3600000);
    upstream_deletion_grace_period_ms = int_opt "UPSTREAM_DELETION_GRACE_PERIOD_MS" (pos 86400000);
    upstream_deletion_batch_size = int_opt "UPSTREAM_DELETION_BATCH_SIZE" (pos 100);
    upstream_deletion_sweep_interval_ms = int_opt "UPSTREAM_DELETION_SWEEP_INTERVAL_MS" (pos 60000);
  }

  abbrev pub unless_errors : List String → Config → Result (List String) Config
  unless_errors [] c = ok c
  unless_errors (e ∷ es) c = err (e ∷ es)

  unfoldable pub load : Result (List String) Config
  load = unless_errors (errors keys) configured
