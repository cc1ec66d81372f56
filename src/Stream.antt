-- ===== src/Stream.antt =====
-- internal/stream/sse.go: the events of a response, read, inspected and forwarded one by one.
-- Reading is in Stream/Events, forwarding in Stream/Copy, the fragments of an event in
-- Stream/Fragments, the rolling windows in Stream/Windows; the other children hold properties.
pub mod Fragments
pub mod Events
pub mod Copy
pub mod Windows
pub mod Reading
pub mod Rolling
pub mod Forwarding
pub mod Channels
mod Examples
