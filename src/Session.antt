-- ===== src/Session.antt =====
-- src/session.
pub mod State
pub mod Config
pub mod Environment
pub mod Diagnostics
pub mod Manager
pub mod Paths
pub mod Resource
pub mod World
pub mod Components
pub mod Operations
pub mod Outcomes
pub mod Started
pub mod Shutdown
