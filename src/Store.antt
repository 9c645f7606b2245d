-- ===== src/Store.antt =====
-- Package store: validation, dialects, the tables, the write transaction and the reads.
pub mod Validate
pub mod Tables
pub mod Dialect
pub mod Read
pub mod Write
pub mod Log
pub mod Tests
