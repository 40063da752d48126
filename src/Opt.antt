-- ===== src/Opt.antt =====
-- josh-filter/src/opt: the rewriting of filters into equivalent ones.
pub mod Paths
pub mod Invert
pub mod Structure
pub mod Simplify
pub mod Flatten
pub mod PrefixSort
pub mod Step
pub mod Driver
