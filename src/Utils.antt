-- ===== src/Utils.antt =====
-- SQL text and its parts (src/utils).
pub mod SqlText
pub mod Columns
pub mod DefaultSort
pub mod Pagination
pub mod FilterTree
pub mod Identifiers
pub mod Decimal
pub mod Metadata
pub mod Aggregations
pub mod Aggregates
