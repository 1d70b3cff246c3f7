-- ===== src/Utils/Aggregates.antt =====
-- src/utils/aggregate-query.ts: aggregate queries, from the request to the SQL and to the rows.
pub mod Resolved
pub mod Request
pub mod Input
pub mod Params
pub mod Display
pub mod Outputs
pub mod Checked
pub mod Defined
pub mod Clauses
pub mod Placeholders
pub mod Sql
pub mod Rows
pub mod LongRows
pub mod Tests
