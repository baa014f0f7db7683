-- ===== src/Sstable/Scan.antt =====
-- The modules of sstable/src/scan.
pub mod Table
pub mod Merge
pub mod Compaction
