-- ===== src/RateLimit.antt =====
-- The rate limiter of the API (ppbase/middleware/rate_limit.py).
pub mod Config
pub mod Identity
pub mod Bucket
pub mod Window
pub mod Reference
pub mod Retry
pub mod Middleware
pub mod Clients
pub mod Positive
