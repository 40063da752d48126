-- ===== src/Persist.antt =====
-- josh-filter/src/persist.rs: the git tree that a filter is stored as, and its reader.
pub mod Utf8
pub mod Decimal
pub mod PathText
pub mod RefText
pub mod Entries
pub mod Write
pub mod Read
pub mod Storable
pub mod RoundTrip
pub mod Writable
pub mod Errors
pub mod Build
pub mod Ids
