-- ===== src/Sstable/Table/Layout.antt =====
-- Entries in blocks, and the layout of blocks in the file of a table.
use lowdb.Prelude.{
  ℕ, ◌+◌, ◌%◌, ◌^◌, ◌<◌, ◌≡◌, ◌≢◌, Ordering, List, [], ◌∷◌, ◌++◌, length, length-append, All, arith,
}
use lowdb.Prelude.Bytes.{Bytes, to_be, length-to_be}
use lowdb.Common.Key.{Key, cmp}
use lowdb.Common.Value.{Value}
use lowdb.Env.{Env}
use lowdb.Wal.Writer.Encoding.{pairs_bytes}
use lowdb.Wal.Reader.RoundTrip.{ReadablePair}
use lowdb.Sstable.Cursor.RoundTrip.{block_of}
use lowdb.Sstable.Index.{IndexedKey}

abbrev pub Entry : Type 0
Entry = Key × Value

-- A block of entries is not empty: the last of them stands apart.
pub record Block : Type 0 where
  pub init : List Entry
  pub last : Entry

abbrev pub entries_of : Block → List Entry
entries_of b = b.init ++ b.last ∷ []

unfoldable pub all_entries : List Block → List Entry
all_entries [] = []
all_entries (b ∷ bs) = entries_of b ++ all_entries bs

module _ (env : Env) where
  -- The blocks as they stand in the file, and the index of them.
  abbrev pub disk_block : Block → Bytes
  disk_block b = block_of env (pairs_bytes (entries_of b))

  unfoldable pub blocks_bytes : List Block → Bytes
  blocks_bytes [] = []
  blocks_bytes (b ∷ bs) = disk_block b ++ blocks_bytes bs

  unfoldable pub index_from : ℕ → List Block → List IndexedKey
  index_from off [] = []
  index_from off (b ∷ bs) =
      record { key = b.last.0; block_off = off % 2 ^ 64; block_len = length (disk_block b) }
      ∷ index_from (off + length (disk_block b)) bs

  -- A block that the writer can have made: entries that read back, in order up to the last, and short
  -- enough for the lengths of the block.
  pub record IsBlock (b : Block) : Type 0 where
    pub readable : All (ReadablePair env) (entries_of b)
    pub ordered : All (λ (e : Entry). cmp e.0 b.last.0 ≢ Ordering.gt) b.init
    pub fits : length (disk_block b) < 65536

  pub length-disk_block :
      (b : Block) → length (disk_block b) ≡ 6 + length (pairs_bytes (entries_of b))
  length-disk_block b =
      let payload = pairs_bytes (entries_of b) in
      omega (
        arith,
        length-append (to_be 4 (env.crc32 payload)) (to_be 2 (length payload) ++ payload),
        length-append (to_be 2 (length payload)) payload,
        length-to_be 4 (env.crc32 payload),
        length-to_be 2 (length payload),
      )
