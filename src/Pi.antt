-- ===== src/Pi.antt =====
-- adapters/pi: the adapter that runs a pi process for each turn.
pub mod Flat
pub mod Probe
pub mod Listed
pub mod Allowlist
pub mod Stream
pub mod Capped
pub mod Lines
pub mod Turn
pub mod Released
pub mod Report
