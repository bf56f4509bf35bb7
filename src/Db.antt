-- ===== src/Db.antt =====
-- internal/db: the database over its memtables and tables.
pub mod Prefix
pub mod Readers
pub mod Oldest
pub mod Reads
pub mod Batches
pub mod Sequences
pub mod State
mod Runs
