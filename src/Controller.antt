-- ===== src/Controller.antt =====
-- mum/src/bin/mumctl.rs: the program that sends commands to the daemon.
pub mod Cli
pub mod Options
pub mod Servers
pub mod Show
