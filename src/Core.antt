-- ===== src/Core.antt =====
-- Errors and results of include/lddm/core, and the lifecycle machine of src/core/lifecycle.cpp.
pub mod Error
pub mod Lifecycle
pub mod Names
