-- ===== src/Terminal.antt =====
-- services/terminal: the restricted operator console and the daemon that runs it.
pub mod Process
pub mod Console
pub mod Daemon
