-- ===== src/Auth.antt =====
-- internal/auth/apikey.go: the gateway's API keys, in Auth/Keys.
pub mod Keys
pub mod Access
mod Examples
