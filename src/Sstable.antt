-- ===== src/Sstable.antt =====
-- sstable/src: the tables on disk. Here: the blocks and their entries.
pub mod Encode
pub mod Cursor
pub mod Footer
pub mod Bloom
pub mod Index
pub mod Table
pub mod Scan
pub mod Meta
pub mod Writer
pub mod Examples
