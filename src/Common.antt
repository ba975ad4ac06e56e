-- ===== src/Common.antt =====
-- crates/common: what the crates share.
pub mod Sections
pub mod Config
pub mod Tests
