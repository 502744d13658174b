-- ===== src/Ldde.antt =====
-- src/ldde.
pub mod Config
pub mod Executable
pub mod Types
pub mod Readiness
pub mod Manager
pub mod Diagnostics
pub mod Prepare
pub mod Run
pub mod Environment
pub mod Outcomes
pub mod ReadyFile
