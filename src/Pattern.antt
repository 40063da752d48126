-- ===== src/Pattern.antt =====
-- josh-filter/src/pattern.rs and the walks of josh-core/src/filter/tree.rs that keep the blobs of a
-- tree by their paths.
pub mod Mask
pub mod Compile
pub mod Walk
pub mod Matches
pub mod Closure
pub mod Loops
pub mod Accepts
pub mod Equivalence
pub mod Arm
pub mod Leaves
pub mod Filtered
