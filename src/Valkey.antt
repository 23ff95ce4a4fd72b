-- ===== src/Valkey.antt =====
-- libs/valkey: the cache and its tombstones.
pub mod Server
pub mod Aside
pub mod Guard
