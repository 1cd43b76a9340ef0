-- ===== src/A2a.antt =====
-- transport/a2a: the peers of a company, which call each other over the A2A protocol.
pub mod Directory
pub mod Client
pub mod Cancel
pub mod Server
pub mod Bound
pub mod Delegated
pub mod Admission
pub mod Retries
