-- ===== src/Server.antt =====
-- Package server: the revision watcher and the HTTP handlers.
mod Tests
pub mod Watcher
pub mod Handlers
pub mod Entries
