-- ===== src/Proxy/Ssrf.antt =====
-- internal/proxy/ssrf.go: which addresses the gateway may contact. The addresses are in
-- Proxy/Ssrf/Address, `ValidateTarget` and `DialContext` in Proxy/Ssrf/Guard; the other children
-- hold properties.
pub mod Address
pub mod Guard
pub mod Ranges
pub mod Dialing
