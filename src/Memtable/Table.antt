-- ===== src/Memtable/Table.antt =====
-- memtable/src/lib.rs: the memory table, which wraps the skip list.
pub mod Reads
pub mod Below
use lowdb.Prelude.{ℕ, ◌*◌, ◌^◌, ◌-◌, Bool, Option, none, some, List, [], ◌∷◌, leb}
use lowdb.Prelude.Bytes.{Bytes}
use lowdb.Common.Key.{Key}
use lowdb.Common.Value.{Value, set, delete}
use lowdb.Common.Lookup.{Lookup, found, deleted, absent}
use lowdb.Memtable.SkipList
use lowdb.Memtable.SkipList.{SkipList, Rng}

pub record MemTable : Type 0 where
  pub id : ℕ
  pub skip_list : SkipList
  pub max_size : ℕ

abbrev pub u64_max : ℕ
u64_max = 2 ^ 64 - 1

abbrev pub max_table_size : ℕ
max_table_size = 64 * 1024 * 1024

unfoldable pub with_max_size : ℕ → ℕ → Rng → MemTable
with_max_size id max_size rng = record {
  id = id;
  skip_list = SkipList.new rng;
  max_size = max_size;
}

unfoldable pub new : ℕ → Rng → MemTable
unfolding with_max_size
new id rng = with_max_size id max_table_size rng

unfoldable pub put : Key → Value → MemTable → MemTable
put key value t = record t { skip_list = (SkipList.insert key value t.skip_list).1 }

-- a loop that puts entries into a table
unfoldable pub put_all : List (Key × Value) → MemTable → MemTable
put_all [] t = t
put_all ((k, v) ∷ kvs) t = put_all kvs (put k v t)

-- the `match` of `get_snap`
unfoldable pub as_lookup : Option Value → Lookup
as_lookup (some (set v)) = found v
as_lookup (some delete) = deleted
as_lookup none = absent

unfoldable pub get_snap : MemTable → Bytes → ℕ → Lookup
unfolding as_lookup
get_snap t key seq = as_lookup (SkipList.get_at t.skip_list key seq)

unfoldable pub get : MemTable → Bytes → Lookup
unfolding get_snap
get t key = get_snap t key u64_max

unfoldable pub is_full : MemTable → Bool
is_full t = leb t.max_size t.skip_list.mem_usage

unfoldable pub is_empty : MemTable → Bool
is_empty t = SkipList.is_empty t.skip_list

unfoldable pub iter : MemTable → List (Key × Value)
iter t = SkipList.iter t.skip_list
