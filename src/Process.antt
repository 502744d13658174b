-- ===== src/Process.antt =====
-- src/process.
pub mod Types
pub mod Spec
pub mod Object
pub mod Registry
pub mod Supervisor
pub mod Diagnostics
pub mod Environment
