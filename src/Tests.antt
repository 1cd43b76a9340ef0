-- ===== src/Tests.antt =====
-- Concrete inputs for the theorems of the library, with an agent of a small company.
pub mod Samples
pub mod Data
pub mod Tasks
pub mod Transport
pub mod Company
pub mod Screens
pub mod Startup
pub mod Cli
pub mod Tools
