-- ===== src/Sstable/Meta/Written.antt =====
-- The meta data of a table that was written is what reading its file gives.
use lowdb.Prelude.{
  ℕ, ◌+◌, ◌%◌, ◌<◌, ◌^◌, ◌≡◌, ◌≢◌, refl, ap, sym, ◌∙◌, some, List, [], ◌∷◌, ◌++◌, length,
  append-nil, All, arith,
}
use lowdb.Prelude.Bytes.{to_be}
use lowdb.Common.Key.{Key}
use lowdb.Common.Error.{ok}
use lowdb.Env.{Env}
use lowdb.Wal.Writer.Encoding.{content}
use lowdb.Wal.Reader.RoundTrip.{ReadablePair}
use lowdb.Sstable.Bloom
use lowdb.Sstable.Footer.{footer_len}
use lowdb.Sstable.Index.{IndexedKey, list_disk_size}
use lowdb.Sstable.Meta.{last_index, read_meta}
use lowdb.Sstable.Table.{SsTableMeta}
use lowdb.Sstable.Table.Layout.{Entry, Block, all_entries, disk_block, blocks_bytes, index_from}
use lowdb.Sstable.Writer.{
  SsTableWriter, create, finish, finish_entries, flush_block, footer_of, unwrap_or,
}
use lowdb.Sstable.Writer.Ends.{first_of, last_of}
use lowdb.Sstable.Writer.Filled.{IsFilled, Given, add_all, add_all-Given, create-IsFilled}
use lowdb.Sstable.Writer.Written.{
  bloom_of, footer_bytes, tail_bytes, stored-write_tail, finish_entries_inv, finish_inv,
  flush-Filled, no_key,
}
use lowdb.Sstable.Meta.Sections.{first_of-some, last_index-some, last_index-index_from, key_of}
use lowdb.Sstable.Meta.Places.{file_of, length-file_of, meta_of, read_meta-file_of}

module _ (env : Env) where
  finish_entries_meta :
      (w : SsTableWriter env) (meta : SsTableMeta)
      → (finish_entries env w).0 ≡ ok (some meta)
      → meta ≡ record {
        file_size =
            (((w.offset + Bloom.disk_size (bloom_of env w)) % 2 ^ 64 + list_disk_size w.index)
                % 2 ^ 64
              + footer_len)
            % 2 ^ 64;
        bloom = bloom_of env w;
        first_key = unwrap_or (no_key env) w.first_key;
        last_key = unwrap_or (no_key env) w.last_key;
        footer = footer_of env w (bloom_of env w);
        index = w.index;
      }
  unfolding finish_entries
  finish_entries_meta w meta h = ground (arith, h)

  last_key_lem :
      (w : SsTableWriter env) (bs : List Block) (es : List Entry) (last : IndexedKey)
      → IsFilled env es bs [] w
      → last_index w.index ≡ some last
      → last.key ≡ unwrap_or (no_key env) w.last_key
  last_key_lem w bs es last f e =
      let all : es ≡ all_entries bs = f.split ∙ append-nil (all_entries bs) in
      let noted : w.last_key ≡ some last.key =
        f.last
        ∙ ap last_of all
        ∙ sym (last_index-index_from env 0 bs)
        ∙ ap (λ is. key_of env (last_index is)) (sym f.index)
        ∙ ap (key_of env) e in
      rw noted refl

  -- The meta data that a writer returns at its end is that of its file.
  meta-file_of :
      (es : List Entry) (b : Block) (bs : List Block) (w : SsTableWriter env) (meta : SsTableMeta)
      (first : Key) (last : IndexedKey)
      → IsFilled env es (b ∷ bs) [] w
      → (finish_entries env w).0 ≡ ok (some meta)
      → length (file_of env (b ∷ bs) w) < 2 ^ 32
      → first_of (all_entries (b ∷ bs)) ≡ some first
      → last_index w.index ≡ some last
      → meta_of env w (file_of env (b ∷ bs) w) first last.key ≡ meta
  unfolding Bloom.disk_size
  meta-file_of es b bs w meta first last f h small hf hl =
      let all : es ≡ all_entries (b ∷ bs) = f.split ∙ append-nil (all_entries (b ∷ bs)) in
      let noted : w.first_key ≡ some first = f.first ∙ ap first_of all ∙ hf in
      let first_key : first ≡ unwrap_or (no_key env) w.first_key = rw noted refl in
      let last_key = last_key_lem w (b ∷ bs) es last f hl in
      let size = length-file_of env (b ∷ bs) w in
      let file_size : length (file_of env (b ∷ bs) w)
          ≡ (((w.offset + (4 + length (bloom_of env w))) % 2 ^ 64 + list_disk_size w.index) % 2 ^ 64
              + footer_len)
            % 2 ^ 64 =
        omega (arith, f.offset, size, small) in
      let made : ℕ → Key → Key → SsTableMeta = λ n k l. record {
        file_size = n;
        bloom = bloom_of env w;
        first_key = k;
        last_key = l;
        footer = footer_of env w (bloom_of env w);
        index = w.index;
      } in
      let smallest = unwrap_or (no_key env) w.first_key in
      let largest = unwrap_or (no_key env) w.last_key in
      ap (λ k. made (length (file_of env (b ∷ bs) w)) k last.key) first_key
      ∙ ap (λ l. made (length (file_of env (b ∷ bs) w)) smallest l) last_key
      ∙ ap (λ n. made n smallest largest) file_size
      ∙ sym (finish_entries_meta w meta h)

  -- What `finish` leaves in the file.
  stored-finish_entries :
      (es : List Entry) (bs : List Block) (w : SsTableWriter env) (meta : SsTableMeta)
      → IsFilled env es bs [] w
      → (finish_entries env w).0 ≡ ok (some meta)
      → env.stored (finish_entries env w).1 ≡ file_of env bs w
  stored-finish_entries es bs w meta f h =
      let (done, file, _, _, _, _) = finish_entries_inv env w meta h in
      ap env.stored file
      ∙ stored-write_tail env w (bloom_of env w) w.file done
      ∙ ap (λ x. x ++ tail_bytes env w (bloom_of env w)) f.written
      ∙ ap
          (λ x.
            blocks_bytes env bs
            ++ ((to_be 4 (length (bloom_of env w)) ++ bloom_of env w)
                ++ (x ++ (footer_bytes env (footer_of env w (bloom_of env w)) ++ []))))
          f.indexed

  read_meta-finish_entries :
      (es : List Entry) (bs : List Block) (w : SsTableWriter env) (meta : SsTableMeta)
      → IsFilled env es bs [] w
      → es ≢ []
      → (finish_entries env w).0 ≡ ok (some meta)
      → length (env.stored (finish_entries env w).1) < 2 ^ 32
      → read_meta env (env.stored (finish_entries env w).1) ≡ ok meta
  unfolding all_entries index_from
  read_meta-finish_entries es [] w meta f some_entry h small = absurd (some_entry f.split)
  read_meta-finish_entries es (b ∷ bs) w meta f some_entry h small =
      let file = stored-finish_entries es (b ∷ bs) w meta f h in
      let short : length (file_of env (b ∷ bs) w) < 2 ^ 32 = rw file at small in
      let (first, here, whole) = first_of-some b (all_entries bs) in
      let (last, hl) =
        last_index-some
          (record { key = b.last.0; block_off = 0 % 2 ^ 64; block_len = length (disk_block env b) })
          (index_from env (0 + length (disk_block env b)) bs) in
      let at_end : last_index w.index ≡ some last = ap last_index f.index ∙ hl in
      rw file (read_meta-file_of env es b bs w first last f short here at_end)
      ∙ ap ok (meta-file_of es b bs w meta first last f h short whole at_end)

  finish_entry :
      (w : SsTableWriter env) (meta : SsTableMeta)
      → (finish env w).0 ≡ ok (some meta)
      → w.entries ≢ 0
  unfolding finish
  finish_entry w meta h = λ e. ground (arith, h, e)

  -- Where entries that read back are added to a new table in turn and it is finished, all without an error,
  -- and the file is shorter than 2^32 bytes, opening the file reads the meta data that `finish` returned:
  -- the size, the keys, the filter, the index and the footer.
  pub read_meta-finish :
      (file : env.BufWriter) (es : List Entry) (meta : SsTableMeta)
      → content env file ≡ []
      → All (ReadablePair env) es
      → (add_all env es (create env file)).0 ≡ ok tt
      → (finish env (add_all env es (create env file)).1).0 ≡ ok (some meta)
      → length (env.stored (finish env (add_all env es (create env file)).1).1) < 2 ^ 32
      → read_meta env (env.stored (finish env (add_all env es (create env file)).1).1) ≡ ok meta
  read_meta-finish file es meta empty readable added done small =
      let w = (add_all env es (create env file)).1 in
      let start : Given env [] (create env file) = ([], ([], create-IsFilled env file empty)) in
      let given = add_all-Given env [] es (create env file) start readable added in
      let (_, (_, filled)) = given in
      let (flushed, same) = finish_inv env w meta done in
      let (bs, f) = flush-Filled env es w given flushed in
      let some_entry : es ≢ [] =
        λ e. finish_entry w meta done (filled.counted ∙ rw e (omega arith)) in
      rw same (
        read_meta-finish_entries es bs (flush_block env w).1 meta f some_entry (rw same at done)
          (rw same at small))
