-- ===== src/Network.antt =====
-- mum/src/network: the tasks of the connection.
pub mod Connecting
pub mod Queue
pub mod Listen
pub mod Pings
pub mod Voice
