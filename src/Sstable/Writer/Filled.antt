-- ===== src/Sstable/Writer/Filled.antt =====
-- The invariant of the writer: what it has written, what waits in its block, and its index.
use lowdb.Prelude.{
  ◌+◌, ◌%◌, ◌^◌, ◌≤◌, ◌<◌, ◌≡◌, refl, ap, sym, subst, ◌∙◌, ◌⊎◌, inl, inr, Bool, Bool-cases, true,
  false, Option, some, List, [], ◌∷◌, ◌++◌, length, length-append, append_assoc, append-nil, ltb,
  All, All-append, All-split, arith, if◌then◌else◌,
}
use lowdb.Prelude.Bytes.{Bytes, to_be, length-to_be}
use lowdb.Common.Key.{Key}
use lowdb.Common.Value.{Value, set, delete}
use lowdb.Common.Error.{DbResult, ok, err}
use lowdb.Env.{Env}
use lowdb.Wal.Writer.Encoding.{pair_bytes, pairs_bytes, FitsPair, content}
use lowdb.Wal.Reader.RoundTrip.{ReadablePair}
use lowdb.Sstable.Encode.{encode_lem}
use lowdb.Sstable.Table.Layout.{
  Entry, Block, entries_of, all_entries, disk_block, blocks_bytes, index_from, IsBlock,
}
use lowdb.Sstable.Writer.Ends.{
  first_of, last_of, first_of-snoc, last_of-snoc, index_entry, index_entries, index_entries-snoc,
  write_index_lem, AreWords, AreWords-next,
}
use lowdb.Sstable.Writer.{
  first_with, SsTableWriter, create, note_key, add, flush_block, is_behind, block_size,
}
use lowdb.Sstable.Writer.Blocks.{
  blank, reset_block-blank, index_of, flushed, flush_block_lem, blocks_bytes-snoc, index_from-snoc,
  all_entries-snoc,
}
use lowdb.Sstable.Writer.Notes.{IsNoted, IsNoted-next, hashes_with, UpToLast}

pub pairs_bytes-snoc :
    (es : List Entry) (k : Key) (v : Value)
    → pairs_bytes (es ++ (k, v) ∷ []) ≡ pairs_bytes es ++ pair_bytes k v
unfolding pairs_bytes
pairs_bytes-snoc [] k v = append-nil (pair_bytes k v)
pairs_bytes-snoc ((a, x) ∷ es) k v =
    ap (λ bs. pair_bytes a x ++ bs) (pairs_bytes-snoc es k v)
    ∙ sym (append_assoc (pair_bytes a x) (pairs_bytes es) (pair_bytes k v))

pairs_bytes_some : (es : List Entry) (e : Entry) → 1 ≤ length (pairs_bytes (es ++ e ∷ []))
unfolding pair_bytes
pairs_bytes_some es (k, v) = rw (pairs_bytes-snoc es k v) (
    omega (
      arith,
      length-append (pairs_bytes es) (pair_bytes k v),
      length-append (to_be 2 (length k.user)) _,
      length-to_be 2 (length k.user),
    ))

-- What waits is nothing, or it is the entries of a block whose last key is the last key noted.
abbrev pub IsCurrent : List Entry → Option Key → Type 0
IsCurrent cur last = (cur ≡ []) ⊎ ((b : Block) × (cur ≡ entries_of b) × (last ≡ some b.last.0))

module _ (env : Env) where
  -- The writer was given `es`: it has written the blocks `bs`, and `cur` waits in its block.
  pub record IsFilled (es : List Entry) (bs : List Block) (cur : List Entry) (w : SsTableWriter env)
      : Type 0 where
    pub split : es ≡ all_entries bs ++ cur
    pub written : content env w.file ≡ blocks_bytes env bs
    pub waiting : w.block ≡ blank ++ pairs_bytes cur
    pub offset : w.offset ≡ length (blocks_bytes env bs) % 2 ^ 64
    pub index : w.index ≡ index_from env 0 bs
    pub blocks : All (IsBlock env) bs
    pub readable : All (ReadablePair env) cur
    pub current : IsCurrent cur w.last_key
    pub noted : IsNoted es w.first_key w.last_key w.hashes
    pub counted : w.entries ≡ length es % 2 ^ 64
    pub first : w.first_key ≡ first_of es
    pub last : w.last_key ≡ last_of es
    pub words : AreWords w.smallest_seq w.largest_seq
    pub indexed : w.index_bytes ≡ index_entries w.index

  pub create-IsFilled :
      (file : env.BufWriter) → content env file ≡ [] → IsFilled [] [] [] (create env file)
  unfolding create first_of last_of index_entries all_entries blocks_bytes pairs_bytes index_from
  create-IsFilled file h = record {
    split = refl;
    written = h;
    waiting = reset_block-blank;
    offset = refl;
    index = refl;
    blocks = tt;
    readable = tt;
    current = inl refl;
    noted = record { upto = tt; from = tt; bounds = tt; hashed = tt; hashed_last = tt };
    counted = refl;
    first = refl;
    last = refl;
    words = (omega arith, omega arith);
    indexed = refl;
  }

  Readable-FitsPair : (k : Key) (v : Value) → ReadablePair env (k, v) → FitsPair (k, v)
  Readable-FitsPair k (set v) (hl, hu, hs, (pos, fits, u)) = (hl, fits)
  Readable-FitsPair k delete (hl, hu, hs, hv) = (hl, tt)

  -- The writer behind `add`, where no block is flushed.
  abbrev grown : Key → Value → SsTableWriter env → SsTableWriter env
  grown k v w =
      note_key env k
        (record w { hashes = hashes_with w.last_key k w.hashes; block = w.block ++ pair_bytes k v })

  grown-IsFilled :
      (es : List Entry) (bs : List Block) (cur : List Entry) (w : SsTableWriter env) (k : Key)
      (v : Value)
      → IsFilled es bs cur w
      → ReadablePair env (k, v)
      → is_behind w.last_key k ≡ false
      → IsFilled (es ++ (k, v) ∷ []) bs (cur ++ (k, v) ∷ []) (grown k v w)
  unfolding note_key
  grown-IsFilled es bs cur w k v f r behind = record {
    split = ap (λ x. x ++ (k, v) ∷ []) f.split ∙ append_assoc (all_entries bs) cur ((k, v) ∷ []);
    written = f.written;
    waiting =
        ap (λ x. x ++ pair_bytes k v) f.waiting
        ∙ ap (λ x. blank ++ x) (sym (pairs_bytes-snoc cur k v));
    offset = f.offset;
    index = f.index;
    blocks = f.blocks;
    readable = All-append (ReadablePair env) cur ((k, v) ∷ []) f.readable (r, tt);
    current = inr (record { init = cur; last = (k, v) }, refl, refl);
    noted = IsNoted-next es w.first_key w.last_key w.hashes (k, v) behind f.noted;
    counted = omega (arith, f.counted, length-append es ((k, v) ∷ []));
    first = ap (λ first. first_with first k) f.first ∙ sym (first_of-snoc es (k, v));
    last = sym (last_of-snoc es (k, v));
    words =
        let (_, _, hs, _) = r in
        AreWords-next w.first_key k w.smallest_seq w.largest_seq hs f.words;
    indexed = f.indexed;
  }

  last_block-IsBlock :
      (es : List Entry) (bs : List Block) (b : Block) (w : SsTableWriter env)
      → IsFilled es bs (entries_of b) w
      → w.last_key ≡ some b.last.0
      → length (disk_block env b) < 65536
      → IsBlock env b
  last_block-IsBlock es bs b w f last small =
      let P : Entry → Type 0 = λ e. UpToLast (some b.last.0) e.0 in
      let upto : All P es = subst (λ l. All (λ (e : Entry). UpToLast l e.0) es) last f.noted.upto in
      let ours = (All-split P (all_entries bs) (entries_of b) (subst (All P) f.split upto)).1 in
      record {
        readable = f.readable;
        ordered = (All-split P b.init (b.last ∷ []) ours).0;
        fits = small;
      }

  last_fits : (b : Block) → All (ReadablePair env) (entries_of b) → length b.last.0.user < 65536
  last_fits b h =
      let ((fits, _, _, _), _) = (All-split (ReadablePair env) b.init (b.last ∷ []) h).1 in fits

  flushed-IsFilled :
      (es : List Entry) (bs : List Block) (b : Block) (w : SsTableWriter env)
      → IsFilled es bs (entries_of b) w
      → w.last_key ≡ some b.last.0
      → (env.write_all (disk_block env b) w.file).0 ≡ ok tt
      → length (disk_block env b) < 65536
      → IsFilled es (bs ++ b ∷ []) [] (flushed env b w)
  unfolding pairs_bytes
  flushed-IsFilled es bs b w f last done small = record {
    split = f.split ∙ sym (append-nil (all_entries (bs ++ b ∷ [])) ∙ all_entries-snoc bs b);
    written =
        env.write_all_ok (disk_block env b) w.file done
        ∙ ap (λ x. x ++ disk_block env b) f.written
        ∙ sym (blocks_bytes-snoc env bs b);
    waiting = reset_block-blank;
    offset = omega (
      arith,
      f.offset,
      ap length (blocks_bytes-snoc env bs b),
      length-append (blocks_bytes env bs) (disk_block env b),
    );
    index =
        let here : 0 + length (blocks_bytes env bs) ≡ length (blocks_bytes env bs) = omega arith in
        rw (f.index, f.offset) (sym (rw here at (index_from-snoc env 0 bs b)));
    blocks =
        All-append (IsBlock env) bs (b ∷ []) f.blocks
          (last_block-IsBlock es bs b w f last small, tt);
    readable = tt;
    current = inl refl;
    noted = f.noted;
    counted = f.counted;
    first = f.first;
    last = f.last;
    words = f.words;
    indexed =
        ap (λ (p : DbResult (Unit {0}) × Bytes). p.1)
          (write_index_lem (index_of env b w.offset) w.index_bytes (last_fits b f.readable))
        ∙ ap (λ bs. bs ++ index_entry (index_of env b w.offset)) f.indexed
        ∙ sym (index_entries-snoc w.index (index_of env b w.offset));
  }

  abbrev pub Given : List Entry → SsTableWriter env → Type 0
  Given es w = (bs : List Block) × ((cur : List Entry) × IsFilled es bs cur w)

  pub flush-Given :
      (es : List Entry) (bs : List Block) (b : Block) (w : SsTableWriter env)
      → IsFilled es bs (entries_of b) w
      → w.last_key ≡ some b.last.0
      → (flush_block env w).0 ≡ ok tt
      → IsFilled es (bs ++ b ∷ []) [] (flush_block env w).1
  flush-Given es bs b w f last h =
      let (e, done, small) =
        flush_block_lem env b w f.waiting (pairs_bytes_some b.init b.last) last h in
      rw e (flushed-IsFilled es bs b w f last done small)

  add_lem :
      (k : Key) (v : Value) (w : SsTableWriter env)
      → ReadablePair env (k, v)
      → is_behind w.last_key k ≡ false
      → add env k v w ≡ (
          if ltb block_size (length (w.block ++ pair_bytes k v))
          then flush_block env (grown k v w)
          else (ok tt, grown k v w))
  unfolding add note_key
  add_lem k v w r ahead =
      let put = encode_lem k v w.block (Readable-FitsPair k v r) in rw (add, ahead, put, put) refl

  grown-Given :
      (es : List Entry) (w : SsTableWriter env) (k : Key) (v : Value) (full : Bool)
      → Given es w
      → ReadablePair env (k, v)
      → is_behind w.last_key k ≡ false
      → (if full then flush_block env (grown k v w) else (ok tt, grown k v w)).0 ≡ ok tt
      → Given
          (es ++ (k, v) ∷ [])
          (if full then flush_block env (grown k v w) else (ok tt, grown k v w)).1
  unfolding note_key
  grown-Given es w k v true (bs, (cur, f)) r ahead h =
      let b : Block = record { init = cur; last = (k, v) } in
      let g = grown-IsFilled es bs cur w k v f r ahead in
      (bs ++ b ∷ [], ([], flush-Given (es ++ (k, v) ∷ []) bs b (grown k v w) g refl h))
  grown-Given es w k v false (bs, (cur, f)) r ahead h =
      (bs, (cur ++ (k, v) ∷ [], grown-IsFilled es bs cur w k v f r ahead))

  behind_fails :
      (k : Key) (v : Value) (w : SsTableWriter env)
      → is_behind w.last_key k ≡ true
      → (add env k v w).0 ≡ ok tt
      → ⊥
  unfolding add
  behind_fails k v w behind h = let fails = rw (add, behind) at h in absurd (cc)

  -- An `add` that succeeds keeps the invariant, with one entry more.
  pub add-Given :
      (es : List Entry) (w : SsTableWriter env) (k : Key) (v : Value)
      → Given es w
      → ReadablePair env (k, v)
      → (add env k v w).0 ≡ ok tt
      → Given (es ++ (k, v) ∷ []) (add env k v w).1
  add-Given es w k v g r h = elim (Bool-cases (is_behind w.last_key k)) [
    | inl behind ↦ absurd (behind_fails k v w behind h)
    | inr ahead ↦
        let step = add_lem k v w r ahead in
        let full = ltb block_size (length (w.block ++ pair_bytes k v)) in
        subst (λ (r : DbResult (Unit {0}) × SsTableWriter env). Given (es ++ (k, v) ∷ []) r.1)
          (sym step)
          (grown-Given es w k v full g r ahead
            (subst (λ (r : DbResult (Unit {0}) × SsTableWriter env). r.0 ≡ ok tt) step h))
  ]

  -- Entries are added in turn, up to the first `add` that fails.
  unfoldable pub add_all : List Entry → SsTableWriter env → DbResult (Unit {0}) × SsTableWriter env
  add_all [] w = (ok tt, w)
  add_all ((k, v) ∷ es) w =
      let (r, w') = add env k v w in elim r [ err e ↦ (err e, w') | ok _ ↦ add_all es w' ]

  add_all_inv :
      (k : Key) (v : Value) (es : List Entry) (w : SsTableWriter env)
      → (add_all ((k, v) ∷ es) w).0 ≡ ok tt
      → ((add env k v w).0 ≡ ok tt) × (add_all ((k, v) ∷ es) w ≡ add_all es (add env k v w).1)
  unfolding add_all
  add_all_inv k v es w h = ground (arith, h)

  pub add_all-Given :
      (given es : List Entry) (w : SsTableWriter env)
      → Given given w
      → All (ReadablePair env) es
      → (add_all es w).0 ≡ ok tt
      → Given (given ++ es) (add_all es w).1
  unfolding add_all
  add_all-Given given [] w g r h = subst (λ es. Given es w) (sym (append-nil given)) g
  add_all-Given given ((k, v) ∷ es) w g (r, rs) h =
      let (first_ok, step) = add_all_inv k v es w h in
      let rest =
        add_all-Given (given ++ (k, v) ∷ []) es (add env k v w).1
          (add-Given given w k v g r first_ok) rs (rw (← step) h) in
      rw (step, ← append_assoc given ((k, v) ∷ []) es) rest
