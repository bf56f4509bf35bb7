-- ===== src/Compaction.antt =====
-- internal/compaction: what a compaction reads and what it keeps.
pub mod Picker
pub mod Sizes
pub mod Ranges
pub mod Picked
pub mod Merge
mod Runs
