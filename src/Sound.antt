-- ===== src/Sound.antt =====
-- The rewriting of josh-filter/src/opt against the meaning that `apply` gives to filters.
pub mod Sequence
pub mod Plain
pub mod Empty
pub mod Moves
pub mod Nest
pub mod Splits
pub mod Kept
pub mod Pairs
pub mod Chain
pub mod Step
pub mod Undo
