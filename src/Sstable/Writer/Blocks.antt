-- ===== src/Sstable/Writer/Blocks.antt =====
-- Flushing a block puts its entries on disk in the layout that is read.
use lowdb.Prelude.{
  ℕ, zero, suc, ◌+◌, ◌-◌, ◌%◌, ◌^◌, ◌≤◌, ◌<◌, ◌≡◌, ◌≢◌, refl, ap, sym, subst, ◌∙◌, Bool, true,
  false, Bool-cases, Option, none, some, List, [], ◌∷◌, ◌++◌, length, length-append, append_assoc,
  append-nil, take, drop, take-length-append, drop-length-append, leb, ltb, All, All-append, inl,
  inr, arith,
}
use lowdb.Prelude.Bytes.{Bytes, to_be, length-to_be}
use lowdb.Common.Key.{Key}
use lowdb.Common.Error.{ok, try_u16_fits, try_u16_long}
use lowdb.Env.{Env}
use lowdb.Wal.Writer.Encoding.{pairs_bytes}
use lowdb.Sstable.Cursor.{block_header}
use lowdb.Sstable.Encode.{put_u16, put_u32}
use lowdb.Sstable.Index.{IndexedKey, write_index}
use lowdb.Sstable.Table.Layout.{
  Block, entries_of, all_entries, disk_block, blocks_bytes, index_from, length-disk_block,
}
use lowdb.Sstable.Writer.{SsTableWriter, set_u16, set_u32, reset_block, flush_block, write_block}

-- the header of a block while it is filled
abbrev pub blank : Bytes
blank = 0 ∷ 0 ∷ 0 ∷ 0 ∷ 0 ∷ 0 ∷ []

pub reset_block-blank : reset_block [] ≡ blank
unfolding reset_block put_u16 put_u32 lowdb.Prelude.Bytes.to_be
reset_block-blank = refl

set_sum :
    (payload : Bytes) (c : ℕ) → set_u32 (blank ++ payload) 0 c ≡ to_be 4 c ++ (0 ∷ 0 ∷ payload)
unfolding set_u32
set_sum payload c = rw (set_u32, length-to_be 4 c)

set_length :
    (payload : Bytes) (c n : ℕ)
    → set_u16 (to_be 4 c ++ (0 ∷ 0 ∷ payload)) 4 n ≡ to_be 4 c ++ (to_be 2 n ++ payload)
unfolding set_u16
set_length payload c n =
    let sum = to_be 4 c in
    let front : take 4 (sum ++ (0 ∷ 0 ∷ payload)) ≡ sum =
      rw (length-to_be 4 c) at (take-length-append sum (0 ∷ 0 ∷ payload)) in
    let behind : drop 6 (sum ++ (0 ∷ 0 ∷ payload)) ≡ payload =
      rw (length-append sum (0 ∷ 0 ∷ []), length-to_be 4 c, append_assoc sum (0 ∷ 0 ∷ []) payload)
        at (drop-length-append (sum ++ 0 ∷ 0 ∷ []) payload) in
    rw (set_u16, length-to_be 2 n, front, behind)

pub all_entries-snoc :
    (bs : List Block) (b : Block) → all_entries (bs ++ b ∷ []) ≡ all_entries bs ++ entries_of b
unfolding all_entries
all_entries-snoc [] b = append-nil (entries_of b)
all_entries-snoc (c ∷ bs) b =
    ap (λ es. entries_of c ++ es) (all_entries-snoc bs b)
    ∙ sym (append_assoc (entries_of c) (all_entries bs) (entries_of b))

module _ (env : Env) where
  open env use {stored, pending}

  pub blocks_bytes-snoc :
      (bs : List Block) (b : Block)
      → blocks_bytes env (bs ++ b ∷ []) ≡ blocks_bytes env bs ++ disk_block env b
  unfolding blocks_bytes
  blocks_bytes-snoc [] b = append-nil (disk_block env b)
  blocks_bytes-snoc (c ∷ bs) b =
      ap (λ es. disk_block env c ++ es) (blocks_bytes-snoc bs b)
      ∙ sym (append_assoc (disk_block env c) (blocks_bytes env bs) (disk_block env b))

  pub index_from-snoc :
      (off : ℕ) (bs : List Block) (b : Block)
      → index_from env off (bs ++ b ∷ [])
        ≡ index_from env off bs
          ++ record {
            key = b.last.0;
            block_off = (off + length (blocks_bytes env bs)) % 2 ^ 64;
            block_len = length (disk_block env b);
          }
            ∷ []
  unfolding index_from blocks_bytes
  index_from-snoc off [] b = let e : off + 0 ≡ off = omega arith in rw e
  index_from-snoc off (c ∷ bs) b =
      let sum : (off + length (disk_block env c)) + length (blocks_bytes env bs)
          ≡ off + length (disk_block env c ++ blocks_bytes env bs) =
        omega (arith, length-append (disk_block env c) (blocks_bytes env bs)) in
      let rest = rw sum at (index_from-snoc (off + length (disk_block env c)) bs b) in
      ap
        (◌∷◌ (record {
          key = c.last.0;
          block_off = off % 2 ^ 64;
          block_len = length (disk_block env c);
        }))
        rest

  abbrev pub index_of : Block → ℕ → IndexedKey
  index_of b off = record { key = b.last.0; block_off = off; block_len = length (disk_block env b) }

  -- The writer behind the flush of the block `b`.
  abbrev pub flushed : Block → SsTableWriter env → SsTableWriter env
  flushed b w = record w {
    file = (env.write_all (disk_block env b) w.file).1;
    block = reset_block [];
    offset = (w.offset + length (disk_block env b)) % 2 ^ 64;
    index = w.index ++ index_of b w.offset ∷ [];
    index_bytes = (write_index (index_of b w.offset) w.index_bytes).1;
  }

  write_block_lem :
      (b : Block) (w : SsTableWriter env) (len : ℕ)
      → set_u16 w.block 4 (len - block_header) ≡ disk_block env b
      → len ≡ length (disk_block env b)
      → (write_block env b.last.0 len w).0 ≡ ok tt
      → ((write_block env b.last.0 len w).1 ≡ flushed b w)
        × ((env.write_all (disk_block env b) w.file).0 ≡ ok tt)
  unfolding write_block
  write_block_lem b w len e size h = ground (arith, e, size)

  -- The writer `w` with the block of these entries.
  abbrev filled_with : Block → SsTableWriter env → SsTableWriter env
  filled_with b w = record w {
    block = blank ++ pairs_bytes (entries_of b);
    last_key = some b.last.0;
  }

  abbrev Flushes : Block → SsTableWriter env → Type 0
  Flushes b w =
      ((flush_block env w).1 ≡ flushed b w)
      × ((env.write_all (disk_block env b) w.file).0 ≡ ok tt)
      × (length (disk_block env b) < 65536)

  flush_block_filled :
      (b : Block) (w : SsTableWriter env)
      → 1 ≤ length (pairs_bytes (entries_of b))
      → (flush_block env (filled_with b w)).0 ≡ ok tt
      → Flushes b (filled_with b w)
  unfolding flush_block
  flush_block_filled b w long h =
      let payload = pairs_bytes (entries_of b) in
      let c = env.crc32 payload in
      let block = set_u32 (blank ++ payload) 0 c in
      let size = length-disk_block env b in
      let summed : length block ≡ length (disk_block env b) =
        ap length (set_sum payload c)
        ∙ omega (arith, size, length-append (to_be 4 c) (0 ∷ 0 ∷ payload), length-to_be 4 c) in
      let full : leb (length (blank ++ payload)) 6 ≡ false = ground (arith, long) in
      let run = rw (flush_block, full, summed) at h in
      elim (Bool-cases (ltb (length (disk_block env b)) 65536)) [
        | inl short ↦
            let fits = try_u16_fits (length (disk_block env b)) (ground (arith, short)) in
            let payload_len : length (disk_block env b) - block_header ≡ length payload =
              omega (arith, size) in
            let ready : set_u16 block 4 (length (disk_block env b) - block_header)
                ≡ disk_block env b =
              rw (payload_len, set_sum payload c, set_length payload c (length payload)) refl in
            let (e, done) =
              write_block_lem b (record (filled_with b w) { block = block })
                (length (disk_block env b)) ready refl (rw fits at run) in
            (rw (flush_block, full, summed, fits) e, done, ground (arith, short))
        | inr too_long ↦
            let fails =
              rw (try_u16_long (length (disk_block env b)) (ground (arith, too_long))) at run in
            absurd (cc)
      ]

  -- Flushing the block of some entries, the last of which is the last key, writes that block.
  pub flush_block_lem :
      (b : Block) (w : SsTableWriter env)
      → w.block ≡ blank ++ pairs_bytes (entries_of b)
      → 1 ≤ length (pairs_bytes (entries_of b))
      → w.last_key ≡ some b.last.0
      → (flush_block env w).0 ≡ ok tt
      → Flushes b w
  flush_block_lem b w filled long last h =
      let same_writer : w ≡ filled_with b w =
        ap (λ (x : Bytes). record w { block = x }) filled
        ∙ ap (λ (k : Option Key). record (filled_with b w) { last_key = k }) last in
      subst (Flushes b) (sym same_writer)
        (flush_block_filled b w long (subst (λ v. (flush_block env v).0 ≡ ok tt) same_writer h))
