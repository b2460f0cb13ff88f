-- ===== src/Apply/Daemon.antt =====
-- internal/apply/serve.go, the loop of the resident process, with the requests of control.go.
pub mod Loop
pub mod Turns
pub mod Requests
pub mod Steps
pub mod Armed
pub mod Kept
pub mod Traced
pub mod Recorded
mod Examples
