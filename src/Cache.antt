-- ===== src/Cache.antt =====
-- The result cache (src/cache).
pub mod Keys
pub mod Redis
pub mod Invalidation
