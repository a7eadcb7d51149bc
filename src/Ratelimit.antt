-- ===== src/Ratelimit.antt =====
-- internal/ratelimit and internal/dispatch/telegram/dispatch_limiter.go: token buckets.
pub mod Bucket
pub mod Limiter
pub mod Keys
