-- ===== src/Engine/Examples.antt =====
-- Applications of the theorems on the layers, on transactions and on the database.
pub mod Runs
pub mod Restarts
use lowdb.Prelude.{
  ℕ, ◌+◌, ◌≤◌, ◌<◌, ◌≢◌, ◌^◌, true, false, ◌≡◌, refl, Option, none, some, List, [], ◌∷◌, ◌++◌,
  length, arith, All,
}
use lowdb.Prelude.Bytes.{Bytes}
use lowdb.Common.Key.{Key}
use lowdb.Common.Value.{Value, set, delete}
use lowdb.Common.Error.{DbResult, ok, err}
use lowdb.Env.Memory.{memory}
use lowdb.Wal.Reader.RoundTrip.{ReadablePair}
use lowdb.Memtable.SkipList.{Rng}
use lowdb.Memtable.Table
use lowdb.Memtable.Table.{MemTable, put_all}
use lowdb.Memtable.Table.Reads.{IsValid, iter-put_all, iter-new}
use lowdb.Storage.{State}
use lowdb.Storage.Levels.{Dir, Layers, Storage, get_snap, force_freeze, flush_oldest, flush_frozen}
use lowdb.Storage.Levels.Freeze.{get_snap-force_freeze}
use lowdb.Storage.Levels.Flush.{IsFlushable, table_file, get_snap-flush_oldest}
use lowdb.Storage.Levels.Drain.{flush_frozen_empties}
use lowdb.Transaction.Oracle
use lowdb.Engine
use lowdb.Engine.{Db, get}
use lowdb.Engine.Reads.{get-set}

abbrev rng : Rng
rng = record { cell = 0; seed = 1 }

abbrev dir : Dir memory
dir = record {
  open_wal = λ id. ok ((48 + id) ∷ [], ([], []));
  create_table = λ id. ([], []);
  remove_wal = λ id. ok tt;
}

abbrev key : ℕ → ℕ → Key
key user seq = record { user = user ∷ []; seq = seq }

abbrev old_entries : List (Key × Value)
old_entries = (key 97 1, set (120 ∷ [])) ∷ (key 97 2, delete) ∷ (key 98 3, set (121 ∷ [])) ∷ []

abbrev old : MemTable
old = put_all old_entries (Table.new 1 rng)

abbrev storage : Storage memory
storage = record {
  state = record {
    active = record { wal = ([], []); mem_table = Table.new 2 rng };
    frozen = old ∷ [];
    storage = record { id = 1; max_seq = 0; tables = [] };
  };
  wal_id = 3;
  shutdown = false;
}

abbrev in_order : List (Key × Value)
in_order = (key 97 2, delete) ∷ (key 97 1, set (120 ∷ [])) ∷ (key 98 3, set (121 ∷ [])) ∷ []

iter-old : Table.iter old ≡ in_order
unfolding lowdb.Common.Key.cmp_str lowdb.Memtable.SkipList.new lowdb.Memtable.SkipList.random_height
    lowdb.Memtable.SkipList.tower_at lowdb.Memtable.SkipList.load lowdb.Memtable.SkipList.set_tower
    lowdb.Memtable.SkipList.store lowdb.Memtable.SkipList.cmp_key lowdb.Memtable.SkipList.cmp_at
    lowdb.Memtable.SkipList.walk lowdb.Memtable.SkipList.descend lowdb.Memtable.SkipList.is_at
    lowdb.Memtable.SkipList.find lowdb.Memtable.SkipList.link_level lowdb.Memtable.SkipList.link
    lowdb.Memtable.SkipList.alloc lowdb.Memtable.SkipList.raise
    lowdb.Memtable.SkipList.insert_raised lowdb.Memtable.SkipList.insert
    lowdb.Memtable.SkipList.iter_from lowdb.Memtable.SkipList.iter lowdb.Memtable.Table.new
    lowdb.Memtable.Table.put lowdb.Memtable.Table.put_all lowdb.Memtable.Table.iter
iter-old = refl

flushes : (flush_oldest memory dir rng storage).0 ≡ ok true
unfolding lowdb.Common.Error.try_u16 lowdb.Common.Key.cmp_str lowdb.Common.Key.cmp
    lowdb.Memtable.SkipList.new lowdb.Memtable.SkipList.random_height
    lowdb.Memtable.SkipList.tower_at lowdb.Memtable.SkipList.load lowdb.Memtable.SkipList.set_tower
    lowdb.Memtable.SkipList.store lowdb.Memtable.SkipList.cmp_key lowdb.Memtable.SkipList.cmp_at
    lowdb.Memtable.SkipList.walk lowdb.Memtable.SkipList.descend lowdb.Memtable.SkipList.is_at
    lowdb.Memtable.SkipList.find lowdb.Memtable.SkipList.link_level lowdb.Memtable.SkipList.link
    lowdb.Memtable.SkipList.alloc lowdb.Memtable.SkipList.raise
    lowdb.Memtable.SkipList.insert_raised lowdb.Memtable.SkipList.insert
    lowdb.Memtable.SkipList.iter_from lowdb.Memtable.SkipList.iter lowdb.Memtable.Table.new
    lowdb.Memtable.Table.put lowdb.Memtable.Table.put_all lowdb.Memtable.Table.iter
    lowdb.Prelude.Bytes.to_be lowdb.Sstable.Bloom.hash64 lowdb.Sstable.Bloom.set_bit
    lowdb.Sstable.Bloom.set_probes lowdb.Sstable.Bloom.add_hashes lowdb.Sstable.Bloom.build
    lowdb.Sstable.Encode.encode_key lowdb.Sstable.Encode.encode_value lowdb.Sstable.Encode.encode
    lowdb.Sstable.Footer.write_to_buf lowdb.Sstable.Index.write_index lowdb.Sstable.Writer.set_u32
    lowdb.Sstable.Writer.reset_block lowdb.Sstable.Writer.try_u32 lowdb.Sstable.Writer.create
    lowdb.Sstable.Writer.write_block lowdb.Sstable.Writer.flush_block lowdb.Sstable.Writer.note_key
    lowdb.Sstable.Writer.add lowdb.Sstable.Writer.write_bloom lowdb.Sstable.Writer.write_footer
    lowdb.Sstable.Writer.write_tail lowdb.Sstable.Writer.finish_entries lowdb.Sstable.Writer.finish
    lowdb.Storage.Disk.add_newest lowdb.Storage.Disk.place_table lowdb.Storage.Disk.write_l0
    lowdb.Storage.Disk.l0 lowdb.Storage.Levels.split_last lowdb.Storage.Levels.remove_log
    lowdb.Storage.Levels.retire_flushed lowdb.Storage.Levels.flush_oldest lowdb.Wal.Writer.◌>>◌
    lowdb.Wal.Writer.write_uint
flushes = refl

old-IsValid : IsValid old
old-IsValid = (iter-put_all old_entries (Table.new 1 rng) (iter-new 1 rng).0).0

in_order-Readable : All (ReadablePair memory) in_order
in_order-Readable = (
  (omega arith, refl, omega arith, tt),
  (
    (omega arith, refl, omega arith, (omega arith, omega arith, refl)),
    ((omega arith, refl, omega arith, (omega arith, omega arith, refl)), tt),
  ),
)

old-IsFlushable : IsFlushable memory old ([], []) 5
old-IsFlushable = record {
  is_valid = old-IsValid;
  readable = rw iter-old in_order-Readable;
  seen = rw iter-old (omega arith, (omega arith, (omega arith, tt)));
  few = rw iter-old (omega arith);
  empty = refl;
}

short : length (table_file memory ([], []) old) < 2 ^ 64
unfolding lowdb.Common.Error.try_u16 lowdb.Common.Key.cmp_str lowdb.Common.Key.cmp
    lowdb.Memtable.SkipList.new lowdb.Memtable.SkipList.random_height
    lowdb.Memtable.SkipList.tower_at lowdb.Memtable.SkipList.load lowdb.Memtable.SkipList.set_tower
    lowdb.Memtable.SkipList.store lowdb.Memtable.SkipList.cmp_key lowdb.Memtable.SkipList.cmp_at
    lowdb.Memtable.SkipList.walk lowdb.Memtable.SkipList.descend lowdb.Memtable.SkipList.is_at
    lowdb.Memtable.SkipList.find lowdb.Memtable.SkipList.link_level lowdb.Memtable.SkipList.link
    lowdb.Memtable.SkipList.alloc lowdb.Memtable.SkipList.raise
    lowdb.Memtable.SkipList.insert_raised lowdb.Memtable.SkipList.insert
    lowdb.Memtable.SkipList.iter_from lowdb.Memtable.SkipList.iter lowdb.Memtable.Table.new
    lowdb.Memtable.Table.put lowdb.Memtable.Table.put_all lowdb.Memtable.Table.iter
    lowdb.Prelude.Bytes.to_be lowdb.Sstable.Bloom.hash64 lowdb.Sstable.Bloom.set_bit
    lowdb.Sstable.Bloom.set_probes lowdb.Sstable.Bloom.add_hashes lowdb.Sstable.Bloom.build
    lowdb.Sstable.Encode.encode_key lowdb.Sstable.Encode.encode_value lowdb.Sstable.Encode.encode
    lowdb.Sstable.Footer.write_to_buf lowdb.Sstable.Index.write_index lowdb.Sstable.Writer.set_u16
    lowdb.Sstable.Writer.set_u32 lowdb.Sstable.Writer.reset_block lowdb.Sstable.Writer.try_u32
    lowdb.Sstable.Writer.create lowdb.Sstable.Writer.write_block lowdb.Sstable.Writer.flush_block
    lowdb.Sstable.Writer.note_key lowdb.Sstable.Writer.add lowdb.Sstable.Writer.write_bloom
    lowdb.Sstable.Writer.write_footer lowdb.Sstable.Writer.write_tail
    lowdb.Sstable.Writer.finish_entries lowdb.Sstable.Writer.finish lowdb.Storage.Disk.add_newest
    lowdb.Wal.Writer.◌>>◌ lowdb.Wal.Writer.write_uint
short = omega arith

get_snap-flush_oldest_example :
    get_snap memory (flush_oldest memory dir rng storage).1.state (97 ∷ []) 5
    ≡ get_snap memory storage.state (97 ∷ []) 5
get_snap-flush_oldest_example =
    get_snap-flush_oldest memory dir rng storage [] old (97 ∷ []) 5 5 refl (omega arith)
      old-IsFlushable short

get_snap-force_freeze_example :
    get_snap memory (force_freeze memory dir rng storage).1.state (97 ∷ []) 1
    ≡ get_snap memory storage.state (97 ∷ []) 1
get_snap-force_freeze_example = get_snap-force_freeze memory dir rng storage (97 ∷ []) 1

drains : (flush_frozen memory dir rng 2 storage).0 ≡ ok tt
unfolding lowdb.Common.Error.try_u16 lowdb.Common.Key.cmp_str lowdb.Common.Key.cmp
    lowdb.Memtable.SkipList.new lowdb.Memtable.SkipList.random_height
    lowdb.Memtable.SkipList.tower_at lowdb.Memtable.SkipList.load lowdb.Memtable.SkipList.set_tower
    lowdb.Memtable.SkipList.store lowdb.Memtable.SkipList.cmp_key lowdb.Memtable.SkipList.cmp_at
    lowdb.Memtable.SkipList.walk lowdb.Memtable.SkipList.descend lowdb.Memtable.SkipList.is_at
    lowdb.Memtable.SkipList.find lowdb.Memtable.SkipList.link_level lowdb.Memtable.SkipList.link
    lowdb.Memtable.SkipList.alloc lowdb.Memtable.SkipList.raise
    lowdb.Memtable.SkipList.insert_raised lowdb.Memtable.SkipList.insert
    lowdb.Memtable.SkipList.iter_from lowdb.Memtable.SkipList.iter lowdb.Memtable.Table.new
    lowdb.Memtable.Table.put lowdb.Memtable.Table.put_all lowdb.Memtable.Table.iter
    lowdb.Prelude.Bytes.to_be lowdb.Sstable.Bloom.hash64 lowdb.Sstable.Bloom.set_bit
    lowdb.Sstable.Bloom.set_probes lowdb.Sstable.Bloom.add_hashes lowdb.Sstable.Bloom.build
    lowdb.Sstable.Encode.encode_key lowdb.Sstable.Encode.encode_value lowdb.Sstable.Encode.encode
    lowdb.Sstable.Footer.write_to_buf lowdb.Sstable.Index.write_index lowdb.Sstable.Writer.set_u32
    lowdb.Sstable.Writer.reset_block lowdb.Sstable.Writer.try_u32 lowdb.Sstable.Writer.create
    lowdb.Sstable.Writer.write_block lowdb.Sstable.Writer.flush_block lowdb.Sstable.Writer.note_key
    lowdb.Sstable.Writer.add lowdb.Sstable.Writer.write_bloom lowdb.Sstable.Writer.write_footer
    lowdb.Sstable.Writer.write_tail lowdb.Sstable.Writer.finish_entries lowdb.Sstable.Writer.finish
    lowdb.Storage.Disk.add_newest lowdb.Storage.Disk.place_table lowdb.Storage.Disk.write_l0
    lowdb.Storage.Disk.l0 lowdb.Storage.Levels.split_last lowdb.Storage.Levels.remove_log
    lowdb.Storage.Levels.retire_flushed lowdb.Storage.Levels.flush_oldest lowdb.Wal.Writer.◌>>◌
    lowdb.Wal.Writer.write_uint lowdb.Storage.Levels.flush_frozen lowdb.Storage.Levels.after_flush
drains = refl

flush_frozen_empties_example : (flush_frozen memory dir rng 2 storage).1.state.frozen ≡ []
flush_frozen_empties_example = flush_frozen_empties memory dir rng 2 storage (omega arith) drains

abbrev db : Db memory
db = record {
  inner = record storage {
    state = record storage.state { active = record { wal = ([], []); mem_table = old } };
  };
  oracle = Oracle.new 3 1;
}

old_below : All (λ (e : Key × Value). e.0.seq < (Oracle.new 3 1).next_seq) (Table.iter old)
unfolding Oracle.new
old_below = rw iter-old (omega arith, (omega arith, (omega arith, tt)))

is_set : (Engine.set memory dir rng (97 ∷ []) (122 ∷ []) db).0 ≡ ok tt
unfolding lowdb.Common.Error.try_u16 lowdb.Common.Key.heap_size lowdb.Common.Key.disk_size
    lowdb.Common.Key.cmp_str lowdb.Common.Key.cmp lowdb.Common.Value.is_delete
    lowdb.Common.Value.heap_size lowdb.Common.Value.disk_size lowdb.Engine.transaction
    lowdb.Engine.snapshot lowdb.Engine.get lowdb.Engine.open_db lowdb.Engine.set lowdb.Engine.flush
    lowdb.Engine.close lowdb.Memtable.SkipList.new lowdb.Memtable.SkipList.is_empty
    lowdb.Memtable.SkipList.xorshift lowdb.Memtable.SkipList.grow lowdb.Memtable.SkipList.seeded
    lowdb.Memtable.SkipList.random_height lowdb.Memtable.SkipList.tower_at
    lowdb.Memtable.SkipList.load lowdb.Memtable.SkipList.set_tower lowdb.Memtable.SkipList.store
    lowdb.Memtable.SkipList.cmp_key lowdb.Memtable.SkipList.cmp_at lowdb.Memtable.SkipList.walk
    lowdb.Memtable.SkipList.descend lowdb.Memtable.SkipList.is_at lowdb.Memtable.SkipList.find
    lowdb.Memtable.SkipList.link_level lowdb.Memtable.SkipList.link
    lowdb.Memtable.SkipList.node_heap_size lowdb.Memtable.SkipList.alloc
    lowdb.Memtable.SkipList.raise lowdb.Memtable.SkipList.insert_raised
    lowdb.Memtable.SkipList.insert lowdb.Memtable.SkipList.seek_from lowdb.Memtable.SkipList.seek
    lowdb.Memtable.SkipList.entry_at lowdb.Memtable.SkipList.get_entry_at
    lowdb.Memtable.SkipList.get_at lowdb.Memtable.SkipList.iter_from lowdb.Memtable.SkipList.iter
    lowdb.Memtable.SkipList.Chain.ptr_eq lowdb.Memtable.SkipList.Chain.last_tall
    lowdb.Memtable.SkipList.Chain.first_tall lowdb.Memtable.Table.with_max_size
    lowdb.Memtable.Table.new lowdb.Memtable.Table.put lowdb.Memtable.Table.put_all
    lowdb.Memtable.Table.as_lookup lowdb.Memtable.Table.get_snap lowdb.Memtable.Table.get
    lowdb.Memtable.Table.is_full lowdb.Memtable.Table.is_empty lowdb.Memtable.Table.iter
    lowdb.Prelude.Assoc.get lowdb.Prelude.Assoc.insert lowdb.Prelude.Assoc.remove
    lowdb.Prelude.Bytes.to_be lowdb.Prelude.Bytes.from_be lowdb.Storage.set_batch
    lowdb.Storage.set_batches lowdb.Storage.Levels.split_last lowdb.Storage.Levels.get_frozen
    lowdb.Storage.Levels.get_snap lowdb.Storage.Levels.get lowdb.Storage.Levels.new_writer
    lowdb.Storage.Levels.new_state lowdb.Storage.Levels.new_storage
    lowdb.Storage.Levels.replace_active lowdb.Storage.Levels.freeze_parsed
    lowdb.Storage.Levels.freeze_opened lowdb.Storage.Levels.force_freeze
    lowdb.Storage.Levels.freeze_if_full lowdb.Storage.Levels.freeze_active
    lowdb.Storage.Levels.remove_log lowdb.Storage.Levels.retire_flushed
    lowdb.Storage.Levels.flush_oldest lowdb.Storage.Levels.after_flush
    lowdb.Storage.Levels.flush_frozen lowdb.Storage.Levels.flush_all
    lowdb.Storage.Levels.has_capacity lowdb.Storage.Levels.begin_shutdown lowdb.Storage.Levels.begin
    lowdb.Storage.Levels.commit lowdb.Storage.Levels.write_batch
    lowdb.Transaction.Oracle.insert_recent lowdb.Transaction.Oracle.retain_above
    lowdb.Transaction.Oracle.new lowdb.Transaction.Oracle.next_tx_id
    lowdb.Transaction.Oracle.count_up lowdb.Transaction.Oracle.count_down
    lowdb.Transaction.Oracle.begin lowdb.Transaction.Oracle.end lowdb.Transaction.Oracle.any_newer
    lowdb.Transaction.Oracle.conflicts lowdb.Transaction.Oracle.versions
    lowdb.Transaction.Oracle.insert_keys lowdb.Transaction.Oracle.publish
    lowdb.Transaction.Oracle.commit lowdb.Transaction.Oracle.Tracking.latest
    lowdb.Transaction.Oracle.Tracking.record_keys lowdb.Transaction.Session.insert_buffer
    lowdb.Transaction.Session.get_buffer lowdb.Transaction.Session.new_transaction
    lowdb.Transaction.Session.set lowdb.Transaction.Session.delete_key
    lowdb.Transaction.Session.drop_at lowdb.Transaction.Session.new_snapshot
    lowdb.Transaction.Session.get lowdb.Transaction.Session.get_at
    lowdb.Transaction.Session.commit_frozen lowdb.Transaction.Session.freeze
    lowdb.Transaction.Session.commit_transaction lowdb.Wal.Writer.◌>>=◌ lowdb.Wal.Writer.◌>>◌
    lowdb.Wal.Writer.lift lowdb.Wal.Writer.write_uint lowdb.Wal.Writer.append_tx_begin
    lowdb.Wal.Writer.append_tx_commit lowdb.Wal.Writer.append_value
    lowdb.Wal.Writer.append_key_value lowdb.Wal.Writer.append_op lowdb.Wal.Writer.append_pairs
    lowdb.Wal.Writer.append_batch lowdb.Wal.Writer.append_cmd lowdb.Wal.Writer.append
    lowdb.Wal.Writer.append_batch_sync lowdb.Wal.Writer.append_kv
    lowdb.Wal.Writer.Encoding.value_bytes lowdb.Wal.Writer.Encoding.pair_bytes
    lowdb.Wal.Writer.Encoding.pairs_bytes lowdb.Wal.Writer.Encoding.encode_cmd
is_set = refl

get-set_example :
    get memory (Engine.set memory dir rng (97 ∷ []) (122 ∷ []) db).1 (97 ∷ [])
    ≡ ok (some (122 ∷ []))
get-set_example = get-set memory dir rng (97 ∷ []) (122 ∷ []) db old-IsValid old_below is_set
