-- ===== src/Memtable.antt =====
-- The crate `memtable`.
pub mod Sorted
pub mod SkipList
pub mod Table
pub mod Examples
