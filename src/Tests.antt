-- ===== src/Tests.antt =====
-- The theorems at concrete inputs.
pub mod Data
pub mod Roster
pub mod Commands
pub mod Packets
pub mod Sound
pub mod Codes
pub mod Terminals
