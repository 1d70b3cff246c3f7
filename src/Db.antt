-- ===== src/Db.antt =====
-- The DuckDB connection pool (src/db).
pub mod Pool
pub mod Schemas
pub mod Freshness
