-- ===== src/Samples.antt =====
-- config/example.yaml, the worked example of the documentation, which the theorems are applied to.
pub mod Links
pub mod Services
pub mod Router
