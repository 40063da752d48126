-- ===== src/Tree.antt =====
-- josh-core/src/filter/tree.rs: operations on git trees.
pub mod Object
pub mod Order
pub mod Subtract
pub mod Intersect
pub mod Overlay
pub mod Insert
pub mod Lookup
pub mod NoZero
pub mod Leaves
pub mod Diff
