-- ===== src/Sstable.antt =====
-- internal/sstable: the metadata of a table's file.
pub mod Footer
pub mod Regions
pub mod Index
pub mod Search
pub mod Physical
pub mod Cursor
pub mod Stored
pub mod Writer
pub mod View
pub mod Logical
pub mod Restarts
pub mod Built
pub mod ReadBack
pub mod Table
pub mod Found
pub mod Written
mod Runs
mod BlockRuns
