-- ===== src/Tasks.antt =====
-- services/tasks: the domain's rules, the store and its tables, and the HTTP API over them.
pub mod Domain
pub mod Store
pub mod Api
pub mod Cache
