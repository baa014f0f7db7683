-- ===== src/Sstable/Writer/Examples.antt =====
-- Applications of the theorems on tables and filters.
use lowdb.Prelude.{
  ℕ, ◌<◌, ◌^◌, ◌≡◌, refl, inl, Option, none, some, List, [], ◌∷◌, length, arith, All,
}
use lowdb.Prelude.Bytes.{Bytes}
use lowdb.Common.Key.{Key}
use lowdb.Common.Value.{Value, set, delete}
use lowdb.Common.Error.{DbResult, ok, err}
use lowdb.Env.Memory.{memory}
use lowdb.Memtable.Sorted.{lookup_entry}
use lowdb.Memtable.Table.Reads.{says}
use lowdb.Wal.Reader.RoundTrip.{ReadablePair}
use lowdb.Sstable.Writer.Written.{get_table-finish}
use lowdb.Sstable.Meta.{read_meta}
use lowdb.Sstable.Meta.Written.{read_meta-finish}
use lowdb.Sstable.Table.{SsTableMeta, get_table}
use lowdb.Sstable.Writer.{create, finish}
use lowdb.Sstable.Writer.Filled.{add_all}

abbrev no_meta : SsTableMeta
no_meta = record {
  file_size = 0;
  bloom = [];
  first_key = record { user = []; seq = 0 };
  last_key = record { user = []; seq = 0 };
  footer = record {
    entries = 0;
    bloom_off = 0;
    index_off = 0;
    index_len = 0;
    index_count = 0;
    smallest_seq = 0;
    largest_seq = 0;
    magic = 0;
  };
  index = [];
}

abbrev entries : List (Key × Value)
entries =
    (record { user = 97 ∷ []; seq = 2 }, set (120 ∷ []))
    ∷ (record { user = 98 ∷ []; seq = 1 }, delete)
    ∷ []

all_added : (add_all memory entries (create memory ([], []))).0 ≡ ok tt
unfolding lowdb.Common.Error.try_u16 lowdb.Common.Key.cmp_str lowdb.Common.Key.cmp
    lowdb.Prelude.Bytes.to_be lowdb.Sstable.Encode.encode_key lowdb.Sstable.Encode.encode_value
    lowdb.Sstable.Encode.encode lowdb.Sstable.Footer.write_to_buf lowdb.Sstable.Writer.reset_block
    lowdb.Sstable.Writer.create lowdb.Sstable.Writer.note_key lowdb.Sstable.Writer.add
    lowdb.Sstable.Writer.Filled.add_all
all_added = refl

abbrev written : DbResult (Option SsTableMeta) × (Bytes × Bytes)
written = finish memory (add_all memory entries (create memory ([], []))).1

abbrev meta : SsTableMeta
meta = elim written.0 [ err e ↦ no_meta | ok r ↦ elim r [ none ↦ no_meta | some m ↦ m ] ]

finished : written.0 ≡ ok (some meta)
unfolding lowdb.Common.Error.try_u16 lowdb.Common.Key.cmp_str lowdb.Common.Key.cmp
    lowdb.Prelude.Bytes.to_be lowdb.Sstable.Bloom.hash64 lowdb.Sstable.Bloom.set_bit
    lowdb.Sstable.Bloom.set_probes lowdb.Sstable.Bloom.add_hashes lowdb.Sstable.Bloom.build
    lowdb.Sstable.Encode.encode_key lowdb.Sstable.Encode.encode_value lowdb.Sstable.Encode.encode
    lowdb.Sstable.Footer.write_to_buf lowdb.Sstable.Index.write_index lowdb.Sstable.Writer.set_u32
    lowdb.Sstable.Writer.reset_block lowdb.Sstable.Writer.try_u32 lowdb.Sstable.Writer.create
    lowdb.Sstable.Writer.write_block lowdb.Sstable.Writer.flush_block lowdb.Sstable.Writer.note_key
    lowdb.Sstable.Writer.add lowdb.Sstable.Writer.write_bloom lowdb.Sstable.Writer.write_footer
    lowdb.Sstable.Writer.write_tail lowdb.Sstable.Writer.finish_entries lowdb.Sstable.Writer.finish
    lowdb.Sstable.Writer.Filled.add_all lowdb.Wal.Writer.◌>>◌ lowdb.Wal.Writer.write_uint
finished = refl

short : length written.1.0 < 2 ^ 32
unfolding lowdb.Common.Error.try_u16 lowdb.Common.Key.cmp_str lowdb.Common.Key.cmp
    lowdb.Prelude.Bytes.to_be lowdb.Sstable.Bloom.hash64 lowdb.Sstable.Bloom.set_bit
    lowdb.Sstable.Bloom.set_probes lowdb.Sstable.Bloom.add_hashes lowdb.Sstable.Bloom.build
    lowdb.Sstable.Encode.encode_key lowdb.Sstable.Encode.encode_value lowdb.Sstable.Encode.encode
    lowdb.Sstable.Footer.write_to_buf lowdb.Sstable.Index.write_index lowdb.Sstable.Writer.set_u16
    lowdb.Sstable.Writer.set_u32 lowdb.Sstable.Writer.reset_block lowdb.Sstable.Writer.try_u32
    lowdb.Sstable.Writer.create lowdb.Sstable.Writer.write_block lowdb.Sstable.Writer.flush_block
    lowdb.Sstable.Writer.note_key lowdb.Sstable.Writer.add lowdb.Sstable.Writer.write_bloom
    lowdb.Sstable.Writer.write_footer lowdb.Sstable.Writer.write_tail
    lowdb.Sstable.Writer.finish_entries lowdb.Sstable.Writer.finish
    lowdb.Sstable.Writer.Filled.add_all lowdb.Wal.Writer.◌>>◌ lowdb.Wal.Writer.write_uint
short = omega arith

entries-Readable : All (ReadablePair memory) entries
entries-Readable = (
  (omega arith, refl, omega arith, (omega arith, omega arith, refl)),
  ((omega arith, refl, omega arith, tt), tt),
)

get_table-finish_example :
    get_table memory written.1.0 meta (97 ∷ []) 5 ≡ ok (says (lookup_entry (97 ∷ []) 5 entries))
get_table-finish_example =
    get_table-finish memory ([], []) entries meta (97 ∷ []) 5 refl entries-Readable all_added
      finished (omega (arith, short))

read_meta-finish_example : read_meta memory written.1.0 ≡ ok meta
read_meta-finish_example =
    read_meta-finish memory ([], []) entries meta refl entries-Readable all_added finished short
