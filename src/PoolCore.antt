-- ===== src/PoolCore.antt =====
-- crates/pool_core: the protocol-agnostic domain of the pool.
pub mod Types
pub mod Worker
pub mod Registry
pub mod Buffer
pub mod Stats
pub mod Processor
pub mod Tests
pub mod Services
