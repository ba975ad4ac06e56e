-- ===== src/Sv2.antt =====
-- crates/sv2_scaffold: the parts of a pool for Stratum V2.
pub mod Aggregation
pub mod Template
pub mod Flow
pub mod Errors
pub mod Tests
