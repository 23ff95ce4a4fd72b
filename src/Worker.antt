-- ===== src/Worker.antt =====
-- services/consumer/internal/worker: the ids it remembers, and what it does with an event.
pub mod Lru
pub mod Handle
