-- ===== src/Security/Complexity.antt =====
-- src/security/complexity-analyzer.ts: the score of an operation.
pub mod Fields
pub mod Charged
pub mod Charges
pub mod Costs
pub mod Ending
pub mod Operation
pub mod Positive
pub mod Rows
pub mod Score
pub mod Tests
pub mod Values
pub mod Walked
