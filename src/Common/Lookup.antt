-- ===== src/Common/Lookup.antt =====
-- common/src/lookup.rs
use lowdb.Prelude.Bytes.{Bytes}

-- What a table knows of a key: a value, a tombstone, or nothing.
pub data Lookup : Type 0 where
  found : Bytes → Lookup
  deleted absent : Lookup
