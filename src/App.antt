-- ===== src/App.antt =====
-- crates/azcoin-pool: the application.
pub mod Poller
pub mod Tests
pub mod Handler
pub mod HandlerTests
pub mod Composition
pub mod Api
pub mod System
pub mod SystemTests
pub mod SolutionTests
pub mod TemplateTests
pub mod WorkerTests
pub mod RestTests
