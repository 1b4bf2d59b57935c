-- ===== src/Transport.antt =====
-- src/transport/: limits and retries around the network requests.
pub mod Limiter
pub mod Retry
pub mod HttpClient
pub mod Middleware
