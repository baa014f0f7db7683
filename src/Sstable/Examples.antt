-- ===== src/Sstable/Examples.antt =====
-- Tests and applications of the theorems on blocks.
use lowdb.Prelude.{
  inl, ◌⊎◌, ◌↔◌, Bool, true, false, Option, none, some, ℕ, ◌<◌, ◌≡◌, refl, suc, List, [], ◌∷◌, ◌++◌,
  length, arith, All,
}
use lowdb.Prelude.Bytes.{Bytes, length-to_be}
use lowdb.Common.Key.{Key}
use lowdb.Common.Value.{Value, set, delete, is_delete}
use lowdb.Common.Error.{DbResult, ok, ◌>>=◌}
use lowdb.Env.Memory.{memory}
use lowdb.Wal.Writer.Encoding.{pairs_bytes}
use lowdb.Wal.Reader.RoundTrip.{ReadablePair}
use lowdb.Sstable.Bloom.{hash64, build, may_contain}
use lowdb.Sstable.Bloom.Sound.{may_contain-build}
use lowdb.Sstable.Scan.Compaction.{CompactionScan, compaction_new, compaction_next}
use lowdb.Memtable.Sorted.{IsAscending, lookup_entry}
use lowdb.Memtable.Table.Reads.{says}
use lowdb.Sstable.Scan.Compaction.Live.{live, compaction_reads}
use lowdb.Sstable.Scan.Compaction.Yields.{Yields}
use lowdb.Sstable.Scan.Compaction.Kept.{IsIn, IsNewestOf, IsLastKey, compaction_keeps}
use lowdb.Sstable.Scan.Table.{scan_next}
use lowdb.Sstable.Scan.Table.Yields.{scan-Yields}
use lowdb.Sstable.Table.Layout.{Block, IsBlock, all_entries, blocks_bytes, length-disk_block}
use lowdb.Sstable.Encode.{encode_all}
use lowdb.Sstable.Footer.{
  Footer, InRange, read_footer, write_to_buf, footer_len, read_footer-write_to_buf,
}
use lowdb.Sstable.Cursor.{open_block}
use lowdb.Sstable.Cursor.RoundTrip.{block_of, read_entries, read_entries-encode_all}

abbrev entries : List (Key × Value)
entries =
    (record { user = 97 ∷ []; seq = 2 }, set (120 ∷ []))
    ∷ (record { user = 98 ∷ []; seq = 1 }, delete)
    ∷ []

entries-Readable : All (ReadablePair memory) entries
entries-Readable = (
  (omega arith, refl, omega arith, (omega arith, omega arith, refl)),
  ((omega arith, refl, omega arith, tt), tt),
)

entries_short : length (pairs_bytes entries) < 65536
entries_short =
    unfold pairs_bytes lowdb.Wal.Writer.Encoding.pair_bytes lowdb.Wal.Writer.Encoding.value_bytes
      lowdb.Prelude.Bytes.to_be in
    omega arith

read_entries-encode_all_example :
    (encode_all entries [] ≡ (ok tt, pairs_bytes entries))
    × ((open_block memory (block_of memory (encode_all entries []).1)
          >>= read_entries memory (suc (length entries)))
        ≡ ok entries)
read_entries-encode_all_example =
    read_entries-encode_all memory entries entries-Readable entries_short

abbrev footer : Footer
footer = record {
  entries = 2;
  bloom_off = 40;
  index_off = 53;
  index_len = 13;
  index_count = 1;
  smallest_seq = 1;
  largest_seq = 2;
  magic = 1398030924;
}

footer-InRange : InRange footer
footer-InRange = record {
  entries = omega arith;
  bloom_off = omega arith;
  index_off = omega arith;
  index_len = omega arith;
  index_count = omega arith;
  smallest_seq = omega arith;
  largest_seq = omega arith;
  magic = refl;
}

read_footer-write_to_buf_example :
    (read_footer memory (write_to_buf footer [] ++ 7 ∷ []) ≡ ok (footer, 7 ∷ []))
    × (length (write_to_buf footer []) ≡ footer_len)
read_footer-write_to_buf_example = read_footer-write_to_buf memory footer (7 ∷ []) footer-InRange

may_contain-build_example :
    may_contain (build memory (hash64 (97 ∷ []) ∷ hash64 (98 ∷ []) ∷ []) 10) (97 ∷ []) ≡ true
may_contain-build_example =
    may_contain-build memory (hash64 (97 ∷ []) ∷ hash64 (98 ∷ []) ∷ []) 10 (97 ∷ []) (inl refl)

-- A scan of a list.
abbrev list_next : List (Key × Value) → DbResult (Option (Key × Value) × List (Key × Value))
list_next [] = ok (none, [])
list_next (e ∷ es) = ok (some e, es)

list-Yields : (es : List (Key × Value)) → Yields list_next es es
list-Yields [] = ([], refl)
list-Yields (e ∷ es) = (es, refl, list-Yields es)

entries-IsAscending : IsAscending entries
unfolding lowdb.Common.Key.cmp lowdb.Common.Key.cmp_str
entries-IsAscending = ((refl, tt), (tt, tt))

compaction_reads_example :
    (c : CompactionScan list_next) × ((ys : List (Key × Value)) × ((compaction_new list_next entries
          ≡ ok c)
        × Yields (compaction_next list_next 4) c ys
        × ((user : Bytes)
            → live (says (lookup_entry user 5 ys)) ≡ live (says (lookup_entry user 5 entries)))))
compaction_reads_example =
    compaction_reads list_next 4 entries entries 5 (omega arith) (list-Yields entries)
      entries-IsAscending (omega arith, (omega arith, tt))

abbrev block : Block
block = record {
  init = (record { user = 97 ∷ []; seq = 2 }, set (120 ∷ [])) ∷ [];
  last = (record { user = 98 ∷ []; seq = 1 }, delete);
}

block-IsBlock : IsBlock memory block
unfolding lowdb.Common.Key.cmp lowdb.Common.Key.cmp_str lowdb.Prelude.Bytes.to_be pairs_bytes
    lowdb.Wal.Writer.Encoding.pair_bytes lowdb.Wal.Writer.Encoding.value_bytes
block-IsBlock = record {
  readable = entries-Readable;
  ordered = ((λ e. cc), tt);
  fits = omega (arith, length-disk_block memory block, entries_short);
}

scan-Yields_example :
    Yields
      (scan_next memory)
      (record {
        r = blocks_bytes memory (block ∷ []) ++ 1 ∷ 2 ∷ [];
        block_remaining = 0;
        remaining = length (blocks_bytes memory (block ∷ []));
      })
      (all_entries (block ∷ []))
scan-Yields_example = scan-Yields memory (block ∷ []) (1 ∷ 2 ∷ []) (block-IsBlock, tt)

compaction_keeps_example :
    (c : CompactionScan list_next) × ((ys : List (Key × Value)) × ((compaction_new list_next entries
          ≡ ok c)
        × Yields (compaction_next list_next 4) c ys
        × IsAscending ys
        × ((e : Key × Value)
            → IsIn e ys ↔ (
                IsIn e entries
                × IsNewestOf e entries
                × ((is_delete e.1 ≡ false) ⊎ IsLastKey e entries)))))
compaction_keeps_example =
    compaction_keeps list_next 4 entries entries (omega arith) (list-Yields entries)
      entries-IsAscending
