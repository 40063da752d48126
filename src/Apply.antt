-- ===== src/Apply.antt =====
-- josh-core/src/filter/mod.rs: `apply`, the tree that a filter makes of a tree.
pub mod Run
pub mod Eval
pub mod Fuel
pub mod Meaning
pub mod Modelled
pub mod NoZero
pub mod Partition
