-- ===== src/RateLimit.antt =====
-- internal/ratelimit: the per-origin federation rate limiter (config.go, limiter.go).
pub mod Settings
pub mod Host
pub mod Threads
pub mod Counting
pub mod Accounts
pub mod Window
pub mod Limiter
pub mod Fairness
pub mod Cleanup
mod Tests
