-- ===== src/Transaction.antt =====
-- transaction/src: the oracle that orders commits.
pub mod Oracle
pub mod Session
pub mod Commits
pub mod Examples
