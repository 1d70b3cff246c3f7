-- ===== src/Export.antt =====
-- The bulk export endpoint (src/export).
pub mod AfterCursor
pub mod ConcurrencyGate
pub mod Params
