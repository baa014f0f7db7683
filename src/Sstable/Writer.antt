-- ===== src/Sstable/Writer.antt =====
-- sstable/src/writer.rs. The file is a buffered file of the environment; the names of the file and of the
-- temporary file that it is written to are left out, and with them creating, renaming and removing it.
pub mod Blocks
pub mod Notes
pub mod Ends
pub mod Filled
pub mod Written
pub mod Examples
use lowdb.Prelude.{
  ℕ, ◌+◌, ◌-◌, ◌*◌, ◌%◌, ◌^◌, ◌≡◌, min, max, Bool, true, false, not, Option, none, some, List, [],
  ◌∷◌, ◌++◌, length, take, drop, ltb, leb, ◌==◌, if◌then◌else◌,
}
use lowdb.Prelude.Bytes.{Bytes, to_be}
use lowdb.Common.Key.{Key, cmp, same, is_greater}
use lowdb.Common.Value.{Value}
use lowdb.Common.Error.{
  DbError, DbResult, ok, err, invalid_value, invalid_state, invalid_int, try_u16,
}
use lowdb.Env.{Env}
use lowdb.Wal.Writer.{Write, ◌>>◌ as ◌and_then◌, write_uint}
use lowdb.Sstable.Bloom
use lowdb.Sstable.Bloom.{hash64}
use lowdb.Sstable.Cursor.{block_header}
use lowdb.Sstable.Encode.{encode, put_u16, put_u32}
use lowdb.Sstable.Footer.{Footer, footer_len, magic_number}
use lowdb.Sstable.Index.{IndexedKey, write_index, index_disk_size, list_disk_size}
use lowdb.Sstable.Table.{SsTableMeta}

abbrev pub block_size : ℕ
block_size = 4 * 1024

abbrev pub bits_per_key : ℕ
bits_per_key = 10

abbrev u64 : ℕ → ℕ
u64 n = n % 2 ^ 64

abbrev u32 : ℕ → ℕ
u32 n = n % 2 ^ 32

-- `b[offset..offset + n].copy_from_slice(...)`, inside the bounds
abbrev pub copy_at : Bytes → ℕ → Bytes → Bytes
copy_at b offset bs = take offset b ++ (bs ++ drop (offset + length bs) b)

unfoldable pub set_u16 : Bytes → ℕ → ℕ → Bytes
set_u16 b offset v = copy_at b offset (to_be 2 v)

unfoldable pub set_u32 : Bytes → ℕ → ℕ → Bytes
set_u32 b offset v = copy_at b offset (to_be 4 v)

unfoldable pub reset_block : Bytes → Bytes
reset_block block = put_u16 (put_u32 block 0) 0

-- `u32::try_from` on a `usize`
unfoldable pub try_u32 : ℕ → DbResult ℕ
try_u32 n = if ltb n (2 ^ 32) then ok n else err invalid_int

-- the loop that sums up `index_len`
unfoldable pub sum_index_len : List IndexedKey → ℕ → ℕ
sum_index_len [] n = n
sum_index_len (i ∷ is) n = sum_index_len is (u32 (n + u32 (index_disk_size i)))

-- `is_none_or(|lk| lk.0 != key.0)`
abbrev pub is_new_key : Option Key → Key → Bool
is_new_key none key = true
is_new_key (some last) key = not (same last.user key.user)

-- `if let Some(last) = &self.last_key && last > key`
abbrev pub is_behind : Option Key → Key → Bool
is_behind none key = false
is_behind (some last) key = is_greater (cmp last key)

-- `first_key`, behind an entry of this key
abbrev pub first_with : Option Key → Key → Option Key
first_with none key = some key
first_with (some first) key = some first

abbrev pub unwrap_or : {A : Type 0} → A → Option A → A
unwrap_or d none = d
unwrap_or d (some a) = a

module _ (env : Env) where
  pub record SsTableWriter : Type 0 where
    pub file : env.BufWriter
    pub block : Bytes
    pub offset : ℕ
    pub index_bytes : Bytes
    pub index : List IndexedKey
    pub hashes : List ℕ
    pub entries : ℕ
    pub first_key : Option Key
    pub last_key : Option Key
    pub smallest_seq : ℕ
    pub largest_seq : ℕ

  unfoldable pub create : env.BufWriter → SsTableWriter
  create file = record {
    file = file;
    block = reset_block [];
    offset = 0;
    index_bytes = [];
    index = [];
    hashes = [];
    entries = 0;
    first_key = none;
    last_key = none;
    smallest_seq = 0;
    largest_seq = 0;
  }

  abbrev pub Act : Type 0 → Type 0
  Act A = SsTableWriter → DbResult A × SsTableWriter

  -- the end of `flush_block`, with the length of the block known
  unfoldable pub write_block : Key → ℕ → Act (Unit {0})
  write_block last len w =
      let block = set_u16 w.block 4 (len - block_header) in
      let (written, file) = env.write_all block w.file in
      let w1 = record w { block = block; file = file } in
      elim written [
        | err e ↦ (err e, w1)
        | ok _ ↦
            let index_key : IndexedKey = record {
              key = last;
              block_off = w.offset;
              block_len = len;
            } in
            let (r, index_bytes) = write_index index_key w.index_bytes in
            elim r [
              | err e ↦ (err e, record w1 { index_bytes = index_bytes })
              | ok _ ↦ (
                ok tt,
                record w1 {
                  index_bytes = index_bytes;
                  index = w.index ++ index_key ∷ [];
                  offset = u64 (w.offset + len);
                  block = reset_block [];
                },
              )
            ]
      ]

  unfoldable pub flush_block : Act (Unit {0})
  flush_block w = if leb (length w.block) block_header then (ok tt, w) else elim w.last_key [
    | none ↦ (err invalid_state, w)
    | some last ↦
        let w1 = record w { block = set_u32 w.block 0 (env.crc32 (drop block_header w.block)) } in
        elim (try_u16 (length w1.block)) [ err e ↦ (err e, w1) | ok len ↦ write_block last len w1 ]
  ]

  -- the bookkeeping of `add` behind `encode`
  unfoldable pub note_key : Key → SsTableWriter → SsTableWriter
  note_key key w = record w {
    first_key = first_with w.first_key key;
    smallest_seq = elim w.first_key [ none ↦ key.seq | some _ ↦ min w.smallest_seq key.seq ];
    largest_seq = elim w.first_key [ none ↦ key.seq | some _ ↦ max w.largest_seq key.seq ];
    last_key = some key;
    entries = u64 (w.entries + 1);
  }

  unfoldable pub add : Key → Value → Act (Unit {0})
  add key value w =
      if is_behind w.last_key key
      then (err invalid_value, w)
      else let hashes =
          if is_new_key w.last_key key then w.hashes ++ hash64 key.user ∷ [] else w.hashes in
        let (encoded, block) = encode key value w.block in
        let w1 = record w { hashes = hashes; block = block } in
        elim encoded [
          | err e ↦ (err e, w1)
          | ok _ ↦
              let w2 = note_key key w1 in
              let flushed = flush_block w2 in
              if ltb block_size (length w2.block) then flushed else (ok tt, w2)
        ]

  infixl 5 ◌>>◌
  abbrev ◌>>◌ : {B : Type 0} → Write env (Unit {0}) → Write env B → Write env B
  m >> k = ◌and_then◌ env m k

  -- `BloomFilter::write` and `Footer::write`
  unfoldable pub write_bloom : Bytes → Write env (Unit {0})
  write_bloom bloom w = elim (try_u32 (length bloom)) [
    | err e ↦ (err e, w)
    | ok len ↦ (do write_uint env 4 len; env.write_all bloom) w
  ]

  unfoldable pub write_footer : Footer → Write env (Unit {0})
  write_footer f = do
    write_uint env 8 f.entries
    write_uint env 8 f.bloom_off
    write_uint env 8 f.index_off
    write_uint env 4 f.index_len
    write_uint env 4 f.index_count
    write_uint env 8 f.smallest_seq
    write_uint env 8 f.largest_seq
    write_uint env 4 f.magic

  -- the footer that `finish` makes
  unfoldable pub footer_of : SsTableWriter → Bytes → Footer
  footer_of w bloom = record {
    entries = w.entries;
    bloom_off = w.offset;
    index_off = u64 (w.offset + Bloom.disk_size bloom);
    index_len = sum_index_len w.index 0;
    index_count = u32 (length w.index);
    smallest_seq = w.smallest_seq;
    largest_seq = w.largest_seq;
    magic = magic_number;
  }

  unfoldable pub write_tail : SsTableWriter → Bytes → Write env (Unit {0})
  write_tail w bloom = do
    write_bloom bloom
    env.write_all w.index_bytes
    write_footer (footer_of w bloom)
    env.flush

  -- There are keys where there are entries, so the two calls of `unwrap` succeed.
  unfoldable pub finish_entries : SsTableWriter → DbResult (Option SsTableMeta) × env.BufWriter
  finish_entries w =
      let bloom = Bloom.build env w.hashes bits_per_key in
      let (r, file) = write_tail w bloom w.file in
      elim r [
        | err e ↦ (err e, file)
        | ok _ ↦
            let no_key : Key = record { user = []; seq = 0 } in
            (
              ok (
                  some (record {
                    file_size = u64 (
                        u64 (u64 (w.offset + Bloom.disk_size bloom) + list_disk_size w.index)
                        + footer_len);
                    bloom = bloom;
                    first_key = unwrap_or no_key w.first_key;
                    last_key = unwrap_or no_key w.last_key;
                    footer = footer_of w bloom;
                    index = w.index;
                  })),
              file,
            )
      ]

  unfoldable pub finish : SsTableWriter → DbResult (Option SsTableMeta) × env.BufWriter
  finish w =
      if w.entries == 0
      then (ok none, w.file)
      else let (r, w') = flush_block w in
        elim r [ err e ↦ (err e, w'.file) | ok _ ↦ finish_entries w' ]
