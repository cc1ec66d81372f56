-- ===== src/Config.antt =====
-- internal/config/config.go: the configuration and what `Validate` asks of it. Reading it from the
-- environment is in Config/Load.
use llm_security_audit_gatew.Base.{
  String, ℤ, List, [], ◌∷◌, Option, none, some, Bool, true, false, not, ◌&&◌, str_eq, if◌then◌else◌,
}
pub mod Load
pub mod Startup
mod Examples

pub record Config : Type 0 where
  pub environment : String
  pub version : String
  pub allow_demo_bootstrap : Bool
  pub upstream_allow_private_networks : Bool
  pub listen_addr : String
  pub admin_addr : String
  pub max_body_bytes : ℤ
  pub max_response_bytes : ℤ
  pub request_timeout_ms : ℤ
  pub audit_enabled : Bool
  pub fail_closed : Bool
  pub postgres_url : String
  pub postgres_pool_max_conns : ℤ
  pub postgres_conn_max_lifetime_ms : ℤ
  pub postgres_conn_max_idle_ms : ℤ
  pub outbox_claim_size : ℤ
  pub redis_url : String
  pub kafka_brokers : List String
  pub kafka_audit_topic : String
  pub kafka_audit_dlq_topic : String
  pub kafka_consumer_group : String
  pub clickhouse_dsn : String
  pub consumer_listen_addr : String
  pub encryption_key_file : String
  pub admin_session_ttl_ms : ℤ
  pub admin_cookie_secure_mode : String
  pub admin_trusted_origins : List String
  pub admin_login_max_failures : ℤ
  pub admin_login_lockout_ms : ℤ
  pub rate_limit_rps : ℤ
  pub rate_limit_burst : ℤ
  pub auditor_url : String
  pub auditor_model : String
  pub auditor_timeout_ms : ℤ
  pub auditor_concurrency : ℤ
  pub event_queue_size : ℤ
  pub sse_audit_window_bytes : ℤ
  pub sse_max_event_bytes : ℤ
  pub health_probe_interval_ms : ℤ
  pub health_probe_timeout_ms : ℤ
  pub snapshot_refresh_interval_ms : ℤ
  pub audit_records_retention_days : ℤ
  pub outbox_retention_days : ℤ
  pub retention_sweep_interval_ms : ℤ
  pub upstream_deletion_grace_period_ms : ℤ
  pub upstream_deletion_batch_size : ℤ
  pub upstream_deletion_sweep_interval_ms : ℤ

module _ (contains : String → String → Bool) where
  -- The loop over the trusted origins.
  unfoldable pub schemeless : List String → Bool
  schemeless [] = false
  schemeless (origin ∷ origins) =
      let rest = schemeless origins in if not (contains origin "://") then true else rest

  -- The checks of `Validate` behind its defaults.
  unfoldable pub check : String → String → Config → Option String
  check environment cookie_mode c =
      if not (str_eq environment "production")
        && not (str_eq environment "development")
        && not (str_eq environment "test")
      then some "GATEWAY_ENV must be production, development, or test"
      else if c.allow_demo_bootstrap && str_eq environment "production"
      then some "ALLOW_DEMO_BOOTSTRAP_RULES is not allowed in production"
      else if c.upstream_allow_private_networks && str_eq environment "production"
      then some "UPSTREAM_ALLOW_PRIVATE_NETWORKS is not allowed in production"
      else if not (str_eq cookie_mode "auto")
          && not (str_eq cookie_mode "always")
          && not (str_eq cookie_mode "never")
      then some "ADMIN_COOKIE_SECURE_MODE must be auto, always, or never"
      else if schemeless c.admin_trusted_origins
      then some
          "ADMIN_TRUSTED_ORIGINS entries must include a scheme, e.g. https://admin.example.com"
      else if str_eq c.postgres_url ""
      then some "POSTGRES_URL is required for gateway identity and administration"
      else none

  unfoldable pub validate : Config → Option String
  validate c =
      check (if str_eq c.environment "" then "production" else c.environment)
        (if str_eq c.admin_cookie_secure_mode "" then "auto" else c.admin_cookie_secure_mode) c
