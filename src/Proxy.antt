-- ===== src/Proxy.antt =====
-- internal/proxy: the SSRF guard of ssrf.go is in Proxy/Ssrf and its children, `DoUpstream` of
-- proxy.go in Proxy/Upstream.
pub mod Ssrf
pub mod Upstream
mod Examples
mod UpstreamExamples
