-- ===== src/Program.antt =====
-- src/main.cpp.
pub mod Args
pub mod Settings
pub mod Run
pub mod Main
pub mod Ends
