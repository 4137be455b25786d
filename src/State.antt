-- ===== src/State.antt =====
-- mum/src/state.rs and mum/src/state/: the state of the daemon.
pub mod User
pub mod Channel
pub mod Server
pub mod Core
pub mod Presence
pub mod Handle
