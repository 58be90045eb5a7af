-- ===== src/Requests.antt =====
-- src/transport/interceptors.ts: what a request to the upstream API passes through.
pub mod RateLimit
pub mod Buckets
pub mod Waits
pub mod Retry
pub mod Redirect
pub mod Confined
pub mod Attempts
pub mod Status
mod Tests
