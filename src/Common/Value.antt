-- ===== src/Common/Value.antt =====
-- common/src/value.rs
use lowdb.Prelude.{ℕ, ◌+◌, Bool, true, false, length}
use lowdb.Prelude.Bytes.{Bytes}

-- Represents an operation with the key.
pub data Value : Type 0 where
  set : Bytes → Value
  delete : Value

unfoldable pub is_delete : Value → Bool
is_delete (set v) = false
is_delete delete = true

unfoldable pub heap_size : Value → ℕ
heap_size (set v) = length v
heap_size delete = 0

unfoldable pub disk_size : Value → ℕ
unfolding heap_size
disk_size v = 2 + heap_size v
