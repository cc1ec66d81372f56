-- ===== src/Rules.antt =====
-- internal/rule: the rules and the registry that keeps one engine for each tenant.
pub mod Engine
pub mod Registry
pub mod Isolation
mod Examples
