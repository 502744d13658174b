-- ===== src/Weston.antt =====
-- src/weston.
pub mod Config
pub mod Executable
pub mod Types
pub mod Readiness
pub mod Manager
pub mod Diagnostics
pub mod Prepare
pub mod Run
pub mod Outcomes
