-- ===== src/Apply.antt =====
-- internal/apply: the engine that puts a rendered declaration on one host.
pub mod Types
pub mod Services
pub mod Steps
pub mod Host
pub mod Comparing
pub mod Staging
pub mod Commit
pub mod Owed
pub mod Settling
pub mod Turn
pub mod Daemon
pub mod Unattended
pub mod Records
pub mod Firewall
mod Disk
mod Examples
