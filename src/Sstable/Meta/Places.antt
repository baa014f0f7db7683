-- ===== src/Sstable/Meta/Places.antt =====
-- The parts of a finished table at the places that its footer names, as `SSTableMeta::read` takes them.
use lowdb.Prelude.{
  ◌+◌, ◌<◌, ◌^◌, ◌≡◌, refl, sym, subst, ◌∙◌, some, List, [], ◌∷◌, ◌++◌, length, length-append,
  append_assoc, All, arith,
}
use lowdb.Prelude.Bytes.{Bytes, to_be, length-to_be}
use lowdb.Common.Key.{Key}
use lowdb.Common.Error.{ok}
use lowdb.Env.{Env}
use lowdb.Sstable.Bloom
use lowdb.Sstable.Footer.{Footer, InRange, footer_len}
use lowdb.Sstable.Index.{IndexedKey, list_disk_size}
use lowdb.Sstable.Meta.{index_at, last_index, read_meta}
use lowdb.Sstable.Meta.Parts.{IsStored, index_at-back, bloom_at-back, footer_at-back}
use lowdb.Sstable.Table.{SsTableMeta}
use lowdb.Sstable.Table.Layout.{Entry, Block, entries_of, blocks_bytes}
use lowdb.Sstable.Writer.{SsTableWriter, footer_of}
use lowdb.Sstable.Writer.Ends.{first_of, index_entries}
use lowdb.Sstable.Writer.Filled.{IsFilled}
use lowdb.Sstable.Writer.Written.{bloom_of, footer_bytes}
use lowdb.Sstable.Meta.Sections.{
  length-index_entries, sum_index_len_lem, index_from-IsStored, first_key_of-blocks, read_meta_lem,
}

module _ (env : Env) where
  length-footer_bytes : (f : Footer) → length (footer_bytes env f) ≡ footer_len
  unfolding footer_bytes
  length-footer_bytes f = simp (length-append, length-to_be)

  -- The file of a table: its blocks, the filter, the index and the footer.
  abbrev pub file_of : List Block → SsTableWriter env → Bytes
  file_of bs w =
      let bloom = bloom_of env w in
      blocks_bytes env bs
      ++ ((to_be 4 (length bloom) ++ bloom)
          ++ (index_entries w.index ++ (footer_bytes env (footer_of env w bloom) ++ [])))

  pub length-file_of :
      (bs : List Block) (w : SsTableWriter env)
      → length (file_of bs w)
        ≡ ((length (blocks_bytes env bs) + (4 + length (bloom_of env w))) + list_disk_size w.index)
          + 52
  length-file_of bs w =
      let bloom = bloom_of env w in
      let footer = footer_bytes env (footer_of env w bloom) in
      omega (
        arith,
        length-append (blocks_bytes env bs)
            ((to_be 4 (length bloom) ++ bloom) ++ (index_entries w.index ++ (footer ++ []))),
        length-append (to_be 4 (length bloom) ++ bloom) (index_entries w.index ++ (footer ++ [])),
        length-append (to_be 4 (length bloom)) bloom,
        length-to_be 4 (length bloom),
        length-append (index_entries w.index) (footer ++ []),
        length-index_entries w.index,
        length-append footer [],
        length-footer_bytes (footer_of env w bloom),
      )

  footer-InRange :
      (es : List Entry) (bs : List Block) (w : SsTableWriter env)
      → IsFilled env es bs [] w
      → list_disk_size w.index < 2 ^ 32
      → InRange (footer_of env w (bloom_of env w))
  unfolding footer_of
  footer-InRange es bs w f small = record {
    entries = omega (arith, f.counted);
    bloom_off = omega (arith, f.offset);
    index_off = omega arith;
    index_len = omega (arith, sum_index_len_lem w.index 0 (omega (arith, small)));
    index_count = omega arith;
    smallest_seq = f.words.0;
    largest_seq = f.words.1;
    magic = refl;
  }

  footer_places :
      (es : List Entry) (bs : List Block) (w : SsTableWriter env)
      → IsFilled env es bs [] w
      → length (file_of bs w) < 2 ^ 32
      → let footer = footer_of env w (bloom_of env w) in
        let blocks = length (blocks_bytes env bs) in
        (footer.bloom_off ≡ blocks)
        × (footer.index_off ≡ blocks + (4 + length (bloom_of env w)))
        × (footer.index_len ≡ list_disk_size w.index)
  unfolding footer_of Bloom.disk_size
  footer_places es bs w f small =
      let size = length-file_of bs w in
      (
        omega (arith, f.offset, size, small),
        omega (arith, f.offset, size, small),
        sum_index_len_lem w.index 0 (omega (arith, size, small)) ∙ omega arith,
      )

  -- What `finish` returns of a table whose file is shorter than 2^32 bytes.
  abbrev pub meta_of : SsTableWriter env → Bytes → Key → Key → SsTableMeta
  meta_of w file first last = record {
    file_size = length file;
    bloom = bloom_of env w;
    first_key = first;
    last_key = last;
    footer = footer_of env w (bloom_of env w);
    index = w.index;
  }

  pub read_meta-file_of :
      (es : List Entry) (b : Block) (bs : List Block) (w : SsTableWriter env) (first : Key)
      (last : IndexedKey)
      → IsFilled env es (b ∷ bs) [] w
      → length (file_of (b ∷ bs) w) < 2 ^ 32
      → first_of (entries_of b) ≡ some first
      → last_index w.index ≡ some last
      → read_meta env (file_of (b ∷ bs) w) ≡ ok (meta_of w (file_of (b ∷ bs) w) first last.key)
  read_meta-file_of es b bs w first last f small hf hl =
      let all = b ∷ bs in
      let bloom = bloom_of env w in
      let footer = footer_of env w bloom in
      let size = length-file_of all w in
      let blocks = blocks_bytes env all in
      let head = to_be 4 (length bloom) ++ bloom in
      let tail = footer_bytes env footer ++ [] in
      let index = index_entries w.index in
      let words = footer-InRange es all w f (omega (arith, size, small)) in
      let regroup : file_of all w ≡ (blocks ++ head) ++ (index ++ tail) =
        sym (append_assoc blocks head (index ++ tail)) in
      let regroup' : file_of all w ≡ ((blocks ++ head) ++ index) ++ tail =
        regroup ∙ sym (append_assoc (blocks ++ head) index tail) in
      let (bloom_off, index_off, index_len) = footer_places es all w f small in
      let behind : footer.index_off ≡ length (blocks ++ head) = omega (
        arith,
        index_off,
        length-append blocks head,
        length-append (to_be 4 (length bloom)) bloom,
        length-to_be 4 (length bloom),
      ) in
      let stored_index : All (IsStored env) w.index =
        rw f.index (index_from-IsStored env 0 all f.blocks) in
      read_meta_lem env (file_of all w) bloom footer first w.index last (omega (arith, size))
        (rw regroup' (
          footer_at-back env ((blocks ++ head) ++ index) footer
            (length (((blocks ++ head) ++ index) ++ tail)) refl words))
        (bloom_at-back env blocks bloom (index ++ tail) footer.bloom_off bloom_off
          (omega (arith, size, small)))
        (first_key_of-blocks env b bs first (head ++ (index ++ tail)) f.blocks.0 hf)
        (subst (λ n. index_at env (file_of all w) footer.index_off n ≡ ok w.index) (sym index_len)
          (rw regroup
            (index_at-back env (blocks ++ head) tail w.index footer.index_off behind stored_index)))
        hl
