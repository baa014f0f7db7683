-- ===== src/Sstable/Meta/Sections.antt =====
-- The index and the first key of blocks as `SSTableMeta::read` finds them.
use lowdb.Prelude.{
  ℕ, ◌+◌, ◌%◌, ◌≤◌, ◌<◌, ◌^◌, ◌≡◌, refl, ap, ◌∙◌, Option, Option-cases, inl, inr, none, some, List,
  [], ◌∷◌, ◌++◌, length, length-append, append_assoc, All, All-split, arith, ltb, false,
}
use lowdb.Prelude.Bytes.{Bytes, to_be, length-to_be}
use lowdb.Common.Key
use lowdb.Common.Key.{Key}
use lowdb.Common.Error.{ok}
use lowdb.Env.{Env}
use lowdb.Wal.Writer.Encoding.{pairs_bytes, value_bytes}
use lowdb.Wal.Reader.RoundTrip.{ReadablePair, uint_back}
use lowdb.Sstable.Footer.{Footer, footer_len}
use lowdb.Sstable.Index.{IndexedKey, index_disk_size, list_disk_size, stream_key}
use lowdb.Sstable.Meta.{footer_at, bloom_at, first_key_of, index_at, last_index, read_meta}
use lowdb.Sstable.Meta.Parts.{IsStored}
use lowdb.Sstable.Scan.Table.Yields.{stream_key-back}
use lowdb.Sstable.Table.Layout.{
  Entry, Block, entries_of, all_entries, disk_block, blocks_bytes, index_from, IsBlock,
  length-disk_block,
}
use lowdb.Sstable.Writer.{sum_index_len}
use lowdb.Sstable.Writer.Ends.{first_of, last_of, last_of-snoc, index_entry, index_entries}

pub length-index_entries : (is : List IndexedKey) → length (index_entries is) ≡ list_disk_size is
unfolding index_entries list_disk_size index_disk_size Key.disk_size Key.heap_size
length-index_entries [] = refl
length-index_entries (i ∷ is) = omega (
  arith,
  length-append (index_entry i) (index_entries is),
  length-append (to_be 2 (length i.key.user))
      (i.key.user ++ (to_be 8 i.key.seq ++ (to_be 8 i.block_off ++ to_be 2 i.block_len))),
  length-append i.key.user (to_be 8 i.key.seq ++ (to_be 8 i.block_off ++ to_be 2 i.block_len)),
  length-append (to_be 8 i.key.seq) (to_be 8 i.block_off ++ to_be 2 i.block_len),
  length-append (to_be 8 i.block_off) (to_be 2 i.block_len),
  length-to_be 2 (length i.key.user),
  length-to_be 8 i.key.seq,
  length-to_be 8 i.block_off,
  length-to_be 2 i.block_len,
  length-index_entries is,
)

pub sum_index_len_lem :
    (is : List IndexedKey) (n : ℕ)
    → n + list_disk_size is < 2 ^ 32
    → sum_index_len is n ≡ n + list_disk_size is
unfolding sum_index_len list_disk_size
sum_index_len_lem [] n h = omega arith
sum_index_len_lem (i ∷ is) n h =
    let here : (n + index_disk_size i % 2 ^ 32) % 2 ^ 32 ≡ n + index_disk_size i = omega arith in
    rw here (sum_index_len_lem is (n + index_disk_size i) (omega arith) ∙ omega arith)

last_of-append :
    (xs ys : List Entry)
    → last_of (xs ++ ys) ≡ elim (last_of ys) [ none ↦ last_of xs | some k ↦ some k ]
unfolding last_of
last_of-append [] ys = ground arith
last_of-append (x ∷ xs) ys = let rest = last_of-append xs ys in ground (arith, rest)

pub first_of-some :
    (b : Block) (ys : List Entry)
    → (k : Key) × (first_of (entries_of b) ≡ some k) × (first_of (entries_of b ++ ys) ≡ some k)
unfolding first_of
first_of-some b ys = by_init b.init b.last
  where
    by_init :
        (init : List Entry) (last : Entry)
        → (k : Key) × (first_of (init ++ last ∷ []) ≡ some k)
          × (first_of ((init ++ last ∷ []) ++ ys) ≡ some k)
    by_init [] last = (last.0, refl, refl)
    by_init (e ∷ init) last = (e.0, refl, refl)

pub last_index-some :
    (i : IndexedKey) (is : List IndexedKey)
    → (last : IndexedKey) × (last_index (i ∷ is) ≡ some last)
unfolding last_index
last_index-some i is = elim (Option-cases (last_index is)) [
  | inl e ↦ (i, rw (last_index, e) refl)
  | inr (last, e) ↦ (last, rw (last_index, e) refl)
]

module _ (env : Env) where
  abbrev pub key_of : Option IndexedKey → Option Key
  key_of none = none
  key_of (some i) = some i.key

  pub last_index-index_from :
      (off : ℕ) (bs : List Block)
      → key_of (last_index (index_from env off bs)) ≡ last_of (all_entries bs)
  unfolding last_index index_from all_entries last_of
  last_index-index_from off [] = refl
  last_index-index_from off (b ∷ bs) =
      let rest = last_index-index_from (off + length (disk_block env b)) bs in
      let both = last_of-append (entries_of b) (all_entries bs) in
      let end = last_of-snoc b.init b.last in ground (arith, rest, both, end)

  pub index_from-IsStored :
      (off : ℕ) (bs : List Block)
      → All (IsBlock env) bs
      → All (IsStored env) (index_from env off bs)
  unfolding index_from
  index_from-IsStored off [] h = tt
  index_from-IsStored off (b ∷ bs) (h, hs) =
      let ((short, utf8, seq, _), _) =
        (All-split (ReadablePair env) b.init (b.last ∷ []) h.readable).1 in
      (
        record { short = short; utf8 = utf8; seq = seq; off = omega arith; len = h.fits },
        index_from-IsStored (off + length (disk_block env b)) bs hs,
      )

  stream_key-first :
      (es : List Entry) (k : Key) (rest : Bytes)
      → first_of es ≡ some k
      → All (ReadablePair env) es
      → (r : Bytes) × (stream_key env (pairs_bytes es ++ rest) ≡ ok (k, r))
  unfolding first_of pairs_bytes
  stream_key-first [] k rest e h = absurd (cc)
  stream_key-first ((j, v) ∷ es) k rest e (h, hs) =
      let same : j ≡ k = ground (arith, e) in
      let back = stream_key-back env j v (pairs_bytes es ++ rest) h in
      (
        value_bytes v ++ (pairs_bytes es ++ rest),
        rw append_assoc (back ∙ ap (λ x. ok (x, value_bytes v ++ (pairs_bytes es ++ rest))) same),
      )

  pub first_key_of-blocks :
      (b : Block) (bs : List Block) (k : Key) (rest : Bytes)
      → IsBlock env b
      → first_of (entries_of b) ≡ some k
      → first_key_of env (blocks_bytes env (b ∷ bs) ++ rest) ≡ ok k
  unfolding first_key_of blocks_bytes
  first_key_of-blocks b bs k rest h e =
      let payload = pairs_bytes (entries_of b) in
      let behind = blocks_bytes env bs ++ rest in
      let (r, back) = stream_key-first (entries_of b) k behind e h.readable in
      let all : (disk_block env b ++ blocks_bytes env bs) ++ rest
          ≡ to_be 4 (env.crc32 payload) ++ (to_be 2 (length payload) ++ (payload ++ behind)) =
        simp append_assoc in
      rw
        (
          first_key_of,
          all,
          uint_back env 4 (env.crc32 payload) _ (env.crc32_u32 payload),
          uint_back env 2 (length payload) (payload ++ behind)
              (omega (arith, length-disk_block env b, h.fits)),
          back,
        )
        refl

  pub read_meta_lem :
      (file bloom : Bytes) (f : Footer) (first : Key) (index : List IndexedKey) (last : IndexedKey)
      → footer_len ≤ length file
      → footer_at env file (length file) ≡ ok f
      → bloom_at env file f.bloom_off ≡ ok bloom
      → first_key_of env file ≡ ok first
      → index_at env file f.index_off f.index_len ≡ ok index
      → last_index index ≡ some last
      → read_meta env file
        ≡ ok (record {
          file_size = length file;
          bloom = bloom;
          first_key = first;
          last_key = last.key;
          footer = f;
          index = index;
        })
  unfolding read_meta
  read_meta_lem file bloom f first index last long hf hb hk hi hl =
      let enough : ltb (length file) footer_len ≡ false = ground arith in
      rw (read_meta, enough, hf, hb, hk, hi) (ground (arith, hl))
