-- ===== src/Events.antt =====
-- internal/events/events.go: the durable queue of audit events (Events/Pipeline) and what carries
-- the stored ones on to Kafka (Events/Dispatch).
pub mod Pipeline
pub mod Counting
pub mod Dispatch
pub mod Sending
pub mod Claims
pub mod Rounds
pub mod AtLeastOnce
pub mod Slots
pub mod Fifo
pub mod Running
pub mod Draining
pub mod Saturation
pub mod Shutdown
mod Examples
