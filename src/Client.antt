-- ===== src/Client.antt =====
-- Package client: the in-memory snapshot, groups, and the refresh loop.
mod Tests
pub mod View
pub mod Prefixes
pub mod Refresh
pub mod Run
pub mod Decode
pub mod Group
pub mod Start
