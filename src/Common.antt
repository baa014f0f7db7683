-- ===== src/Common.antt =====
-- The crate `common`: keys, values, lookups and errors (common/src/*.rs).
pub mod Key
pub mod Value
pub mod Lookup
pub mod Error
