-- ===== src/Logging.antt =====
-- src/logging: the levels and the subsystems, messages, sinks, and the logger.
pub mod Level
pub mod Message
pub mod Logger
pub mod Delivered
