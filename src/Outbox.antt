-- ===== src/Outbox.antt =====
-- services/tasks/internal/outbox: how events leave the database for Kafka.
pub mod Relay
