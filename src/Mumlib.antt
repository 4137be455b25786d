-- ===== src/Mumlib.antt =====
-- The shared crate, mumlib/src: what the controller and the daemon send one another.
pub mod Error
pub mod Tree
pub mod Iter
pub mod Event
pub mod Command
pub mod Config
