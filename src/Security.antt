-- ===== src/Security.antt =====
-- The protections of the API (src/security).
pub mod Complexity
pub mod DepthLimit
pub mod RateLimiter
