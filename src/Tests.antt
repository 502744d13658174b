-- ===== src/Tests.antt =====
-- Concrete inputs, and the theorems at them.
mod Inputs
mod ProcessTests
mod ConfigTests
mod ManagerTests
mod ParserTests
mod EnvironmentTests
mod ProgramTests
mod ResourceTests
mod SessionTests
mod RecoveryTests
mod PlatformTests
mod ReportTests
