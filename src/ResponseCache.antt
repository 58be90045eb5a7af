-- ===== src/ResponseCache.antt =====
-- The HTTP response cache: src/transport/cache-header-utils.ts (Headers.antt),
-- src/transport/cache-policy-evaluator.ts (Policy.antt), and
-- src/transport/response-cache-interceptor.ts with cache-revalidation-utils.ts (Interceptor.antt),
-- over the store of Cache.antt.
pub mod Headers
pub mod Policy
pub mod Interceptor
pub mod Directives
pub mod Storable
pub mod Served
pub mod Stale
mod Tests
