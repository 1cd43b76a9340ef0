-- ===== src/Supervisor.antt =====
-- core/supervisor/supervisor.go and watcher.go: the supervisor of one agent. `World` is the state
-- and the monad; the other modules have the operations, and their children the proofs.
pub mod World
pub mod Action
pub mod Watchers
pub mod Intents
pub mod Rounds
pub mod Resume
pub mod FollowUp
pub mod Execute
pub mod Recovery
pub mod Keeps
pub mod Approval
pub mod Safety
pub mod Frame
pub mod Total
