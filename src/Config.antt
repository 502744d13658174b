-- ===== src/Config.antt =====
-- src/config: the configuration, its file format, its validation and its migration.
pub mod Types
pub mod Validator
pub mod Lines
pub mod Values
pub mod Parser
pub mod Manager
pub mod Writer
pub mod Migrator
