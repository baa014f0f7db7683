-- ===== src/Sstable/Meta.antt =====
-- sstable/src/meta.rs: reading the meta data of a table back from its file, and `BloomFilter::read`. To
-- seek to an offset is to drop the bytes before it.
pub mod Parts
pub mod Sections
pub mod Places
pub mod Written
use lowdb.Prelude.{
  ℕ, zero, suc, ◌-◌, Option, none, some, List, [], ◌∷◌, length, drop, ltb, ◌==◌, if◌then◌else◌,
}
use lowdb.Prelude.Bytes.{Bytes}
use lowdb.Common.Key.{Key}
use lowdb.Common.Error.{DbResult, ok, err, invalid_state, ◌>>=◌}
use lowdb.Env.{Env}
use lowdb.Sstable.Footer.{Footer, footer_len, read_footer}
use lowdb.Sstable.Index.{IndexedKey, index_disk_size, stream_index, stream_key}
use lowdb.Sstable.Scan.Table.{checked_sub}
use lowdb.Sstable.Table.{SsTableMeta}

-- `index.last()`
unfoldable pub last_index : List IndexedKey → Option IndexedKey
last_index [] = none
last_index (i ∷ is) = elim (last_index is) [ none ↦ some i | some last ↦ some last ]

module _ (env : Env) where
  -- `SSTableMeta::footer`, with a size that is not below the length of a footer
  unfoldable pub footer_at : Bytes → ℕ → DbResult Footer
  footer_at file size = do (footer, _) ← read_footer env (drop (size - footer_len) file); ok footer

  unfoldable pub stream_bloom : Bytes → DbResult (Bytes × Bytes)
  stream_bloom r = do (len, r) ← env.read_uint 4 r; env.read_exact len r

  unfoldable pub bloom_at : Bytes → ℕ → DbResult Bytes
  bloom_at file offset = do (bloom, _) ← stream_bloom (drop offset file); ok bloom

  unfoldable pub first_key_of : Bytes → DbResult Key
  first_key_of file = do
    (sum, r) ← env.read_uint 4 file
    (len, r) ← env.read_uint 2 r
    (key, _) ← stream_key env r
    ok key

  -- The loop of `index`, on fuel: every round takes at least the fixed part of an entry from `len`, so
  -- `len` rounds are enough.
  unfoldable pub index_loop : ℕ → ℕ → Bytes → DbResult (List IndexedKey)
  index_loop zero len r = if len == 0 then ok [] else err invalid_state
  index_loop (suc n) len r = if len == 0 then ok [] else do
    (i, r) ← stream_index env r
    left ← checked_sub len (index_disk_size i)
    is ← index_loop n left r
    ok (i ∷ is)

  unfoldable pub index_at : Bytes → ℕ → ℕ → DbResult (List IndexedKey)
  index_at file offset len = index_loop len len (drop offset file)

  unfoldable pub read_meta : Bytes → DbResult SsTableMeta
  read_meta file =
      let file_size = length file in
      if ltb file_size footer_len then err invalid_state else do
        footer ← footer_at file file_size
        bloom ← bloom_at file footer.bloom_off
        first_key ← first_key_of file
        index ← index_at file footer.index_off footer.index_len
        elim (last_index index) [
          | none ↦ err invalid_state
          | some last ↦ ok (record {
            file_size = file_size;
            bloom = bloom;
            first_key = first_key;
            last_key = last.key;
            footer = footer;
            index = index;
          })
        ]
