-- ===== src/Recovery.antt =====
-- src/recovery: the policies, the limits and the steps of recovering a session.
pub mod Types
pub mod Config
pub mod Diagnostics
pub mod Manager
pub mod Clean
pub mod Restart
pub mod Recover
pub mod Settled
pub mod Kept
pub mod Window
pub mod Limit
pub mod Stranded
pub mod Events
