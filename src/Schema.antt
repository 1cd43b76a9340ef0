-- ===== src/Schema.antt =====
-- config/schema.go: the company file.
pub mod Names
pub mod Yaml
pub mod Agent
pub mod Servers
pub mod Load
pub mod Accepted
pub mod Valid
pub mod Company
