-- ===== src/Storage.antt =====
-- internal/storage: the tables of PostgreSQL that the gateway works on, each statement of the
-- sources as a function on the rows. The outbox of postgres.go is in Storage/Outbox, the life of an
-- upstream of admin_upstreams.go in Storage/Upstreams.
pub mod Outbox
pub mod Upstreams
