-- ===== src/Common.antt =====
-- common/: what the other parts of the library share.
pub mod Json
pub mod Time
pub mod Rows
pub mod PlainDates
pub mod Actions
