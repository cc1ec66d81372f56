-- ===== src/Httpapi.antt =====
-- internal/httpapi: the proxy's handler and its guards. `Front` is the handler up to the upstream
-- exchange, with `Decode`, `RequestAudit` and `Emit` as its parts; `ResponseAudit` inspects what
-- comes back. The two guards keep their state per process under a mutex, so an operation is one
-- step; the clock reading is an argument, in nanoseconds.
pub mod LoginGuard
pub mod AuthThrottle
pub mod Decode
pub mod Emit
pub mod Front
pub mod RequestAudit
pub mod ResponseAudit
mod Examples
mod PipelineExamples
