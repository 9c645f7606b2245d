-- ===== src/Source.antt =====
-- The source of snapshots that reads the database itself.
pub mod Db
