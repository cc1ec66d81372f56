-- ===== src/Admin.antt =====
-- internal/httpapi/admin.go: administrators and their sessions, over the tables of
-- internal/storage/admin_upstreams.go.
pub mod Accounts
pub mod Sessions
pub mod Login
pub mod Revocation
pub mod Passwords
pub mod Csrf
mod Examples
