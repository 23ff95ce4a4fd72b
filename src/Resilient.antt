-- ===== src/Resilient.antt =====
-- libs/resilient-http-client: a policy per target around outbound HTTP requests.
pub mod Window
pub mod Config
pub mod Validate
pub mod Errors
pub mod Backoff
pub mod Bulkhead
pub mod Budget
pub mod Breaker
pub mod Policy
pub mod Redirects
pub mod Client
