-- ===== src/Lsctl.antt =====
-- The command-line client lsctl: the unified diff that it prints.
mod Tests
pub mod Diff
pub mod Backend
pub mod Command
pub mod Render
pub mod Ui
