-- ===== src/Sv1.antt =====
-- crates/protocol_sv1: the Stratum V1 protocol.
pub mod Messages
pub mod Mapper
pub mod Session
pub mod Server
pub mod Notify
pub mod Tests
pub mod ServerTests
