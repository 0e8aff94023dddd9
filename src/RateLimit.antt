-- ===== src/RateLimit.antt =====
-- Rate limiting: src/core/ratelimit.
pub mod CallerKey
