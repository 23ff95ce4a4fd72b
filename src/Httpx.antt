-- ===== src/Httpx.antt =====
-- libs/httpx: requests and answers, health, logs, and what is shown of a configuration.
pub mod Health
pub mod Sampling
pub mod Request
pub mod Answer
pub mod LogLevel
pub mod Redact
