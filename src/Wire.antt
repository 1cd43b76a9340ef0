-- ===== src/Wire.antt =====
-- cmd/company/wire.go: the composition root, which starts the agents of a company.
pub mod Agents
pub mod Startup
pub mod Started
pub mod Up
pub mod Directed
pub mod Failed
pub mod Left
pub mod Company
pub mod Down
pub mod Starts
pub mod Loaded
