-- ===== src/Config.antt =====
-- internal/config: the validated declaration and what is derived from it.
pub mod Derive
pub mod Returns
pub mod Model
pub mod Problem
pub mod Resolve
pub mod Checks
pub mod Validate
