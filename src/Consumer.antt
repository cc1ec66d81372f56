-- ===== src/Consumer.antt =====
-- internal/consumer/consumer.go: the delivery of Kafka's audit events to ClickHouse. What a message
-- has to hold is in Consumer/Validation, one round of `Run` in Consumer/Rounds.
pub mod Validation
pub mod Rounds
pub mod Delivery
mod Examples
