-- ===== src/Cli.antt =====
-- adapters/claudecode and adapters/opencode: the adapters that run a command line tool for each turn.
pub mod Text
pub mod Lines
pub mod Turn
pub mod Claude
pub mod Opencode
pub mod Streams
pub mod Events
pub mod Report
pub mod Grants
