-- ===== src/Utils/FilterTree.antt =====
-- src/utils/filter-tree.ts: from the filter tree of a request to a SQL predicate with parameters.
pub mod Operations
pub mod Bound
pub mod Input
pub mod Typing
pub mod Values
pub mod Criterion
pub mod Tree
pub mod SafeTypes
pub mod Bindings
pub mod Placeholders
pub mod Names
pub mod Collected
pub mod LikePattern
pub mod Permitted
pub mod Tests
