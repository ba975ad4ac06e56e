-- ===== src/Coin.antt =====
-- crates/coin_azcoin: what is particular to the coin.
pub mod Target
pub mod Header
pub mod ShareValidator
pub mod Coinbase
pub mod Template
pub mod RawBlock
pub mod Candidate
pub mod Tests
pub mod JobTests
pub mod Http
pub mod Daemon
pub mod NodeApi
pub mod ApiTemplate
pub mod JobSource
pub mod ClientTests
