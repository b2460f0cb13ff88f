-- ===== src/Config/Checks.antt =====
-- internal/config/validate.go: the checks of the kinds, and those between resources.
pub mod Derived
pub mod Links
pub mod Uplinks
pub mod Firewall
pub mod Forwards
pub mod Serving
pub mod Records
pub mod Names
pub mod Cycles
