-- ===== src/Filter.antt =====
-- josh-filter/src/op.rs and filter.rs: the filter language.
pub mod Op
pub mod Height
