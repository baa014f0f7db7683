-- ===== src/Sstable/Writer/Written.antt =====
-- The table that `finish` leaves is one that is read.
use lowdb.Prelude.{
  ℕ, ◌^◌, ◌<◌, ◌≡◌, ◌≢◌, refl, ap, sym, subst, ◌∙◌, inl, inr, Bool-cases, Ordering, Option, none,
  some, List, [], ◌∷◌, ◌++◌, length, length-append, append-nil, ltb, All, All-imp, arith,
}
use lowdb.Prelude.Bytes.{Bytes, to_be}
use lowdb.Common.Key.{Key, cmp_str}
use lowdb.Common.Key.Order.{cmp_str-flip}
use lowdb.Common.Error.{ok}
use lowdb.Env.{Env}
use lowdb.Wal.Writer.{Write, ◌>>◌}
use lowdb.Wal.Writer.Encoding.{
  pairs_bytes, content, Writes, Writes-all, Writes-uint, Writes->>, Writes-imp, ok_of_bind,
}
use lowdb.Wal.Reader.RoundTrip.{ReadablePair}
use lowdb.Memtable.Sorted.{lookup_entry}
use lowdb.Memtable.Table.Reads.{says}
use lowdb.Sstable.Bloom
use lowdb.Sstable.Bloom.{hash64, may_contain}
use lowdb.Sstable.Bloom.Sound.{may_contain-build}
use lowdb.Sstable.Footer.{Footer}
use lowdb.Sstable.Table.{SsTableMeta, get_table}
use lowdb.Sstable.Table.Reads.{IsTable, get_table_lem}
use lowdb.Sstable.Table.Layout.{Entry, Block, entries_of, all_entries, blocks_bytes}
use lowdb.Sstable.Writer.{
  SsTableWriter, create, flush_block, write_bloom, write_footer, write_tail, footer_of, finish,
  finish_entries, try_u32, unwrap_or, bits_per_key,
}
use lowdb.Sstable.Writer.Blocks.{blank}
use lowdb.Sstable.Writer.Filled.{
  IsFilled, Given, flush-Given, add_all, add_all-Given, create-IsFilled,
}
use lowdb.Sstable.Writer.Notes.{UpToLast, FromFirst, users_UpTo}

module _ (env : Env) where
  open env use {BufWriter, stored, pending, write_all, flush, flush_ok}

  unfoldable pub footer_bytes : Footer → Bytes
  footer_bytes f =
      to_be 8 f.entries
      ++ (to_be 8 f.bloom_off
          ++ (to_be 8 f.index_off
              ++ (to_be 4 f.index_len
                  ++ (to_be 4 f.index_count
                      ++ (to_be 8 f.smallest_seq ++ (to_be 8 f.largest_seq ++ to_be 4 f.magic))))))

  Writes-footer : (f : Footer) → Writes env Unit (footer_bytes f) (write_footer env f)
  unfolding write_footer footer_bytes
  Writes-footer f =
      Writes-imp env (λ h. tt)
        (Writes->> env (Writes-uint env 8 f.entries) (
          Writes->> env (Writes-uint env 8 f.bloom_off) (
            Writes->> env (Writes-uint env 8 f.index_off) (
              Writes->> env (Writes-uint env 4 f.index_len) (
                Writes->> env (Writes-uint env 4 f.index_count) (
                  Writes->> env (Writes-uint env 8 f.smallest_seq) (
                    Writes->> env (Writes-uint env 8 f.largest_seq)
                      (Writes-uint env 4 f.magic))))))))

  Writes-bloom :
      (bloom : Bytes) → Writes env Unit (to_be 4 (length bloom) ++ bloom) (write_bloom env bloom)
  unfolding write_bloom try_u32
  Writes-bloom bloom =
      let both = Writes->> env (Writes-uint env 4 (length bloom)) (Writes-all env bloom) in
      elim (Bool-cases (ltb (length bloom) (2 ^ 32))) [
        | inl short ↦ record {
          appends = λ w h. rw (write_bloom, short) (both.appends w (rw (write_bloom, short) at h));
          needs = λ w h. tt;
        }
        | inr long ↦ record {
          appends = λ w h. absurd (let fails = rw (write_bloom, long) at h in cc);
          needs = λ w h. tt;
        }
      ]

  Writes-flush : Writes env Unit [] flush
  Writes-flush = record {
    appends = λ w h. let (all, none_left) = flush_ok w h in rw (all, none_left) refl;
    needs = λ w h. tt;
  }

  -- Behind `m` nothing stays buffered.
  abbrev Empties : Write env (Unit {0}) → Type 0
  Empties m = (w : BufWriter) → (m w).0 ≡ ok tt → pending (m w).1 ≡ []

  Empties->> : (m k : Write env (Unit {0})) → Empties k → Empties (◌>>◌ env m k)
  Empties->> m k e w h = let (hm, hk, same) = ok_of_bind env m k w h in rw (← same) (e (m w).1 hk)

  -- What is written behind the blocks: the filter, the index and the footer.
  abbrev pub tail_bytes : SsTableWriter env → Bytes → Bytes
  tail_bytes w bloom =
      (to_be 4 (length bloom) ++ bloom)
      ++ (w.index_bytes ++ (footer_bytes (footer_of env w bloom) ++ []))

  pub stored-write_tail :
      (w : SsTableWriter env) (bloom : Bytes) (file : BufWriter)
      → (write_tail env w bloom file).0 ≡ ok tt
      → stored (write_tail env w bloom file).1 ≡ content env file ++ tail_bytes w bloom
  unfolding write_tail
  stored-write_tail w bloom file h =
      let tail = Writes->> env (Writes-bloom bloom) (
        Writes->> env (Writes-all env w.index_bytes)
          (Writes->> env (Writes-footer (footer_of env w bloom)) Writes-flush)) in
      let all = tail.appends file h in
      let emptied : Empties (write_tail env w bloom) =
        Empties->> _ _ (Empties->> _ _ (Empties->> _ flush (λ w h. (flush_ok w h).1))) in
      sym (append-nil (stored (write_tail env w bloom file).1))
      ∙ ap (λ p. stored (write_tail env w bloom file).1 ++ p) (sym (emptied file h))
      ∙ all

  abbrev pub bloom_of : SsTableWriter env → Bytes
  bloom_of w = Bloom.build env w.hashes bits_per_key

  abbrev pub no_key : Key
  no_key = record { user = []; seq = 0 }

  pub finish_entries_inv :
      (w : SsTableWriter env) (meta : SsTableMeta)
      → (finish_entries env w).0 ≡ ok (some meta)
      → ((write_tail env w (bloom_of w) w.file).0 ≡ ok tt)
        × ((finish_entries env w).1 ≡ (write_tail env w (bloom_of w) w.file).1)
        × (meta.index ≡ w.index)
        × (meta.bloom ≡ bloom_of w)
        × (meta.first_key ≡ unwrap_or no_key w.first_key)
        × (meta.last_key ≡ unwrap_or no_key w.last_key)
  unfolding finish_entries
  finish_entries_inv w meta h = ground (arith, h)

  lower_bound :
      (first : Option Key) (k : Key)
      → FromFirst first k
      → cmp_str k.user (unwrap_or no_key first).user ≢ Ordering.lt
  lower_bound none k h = absurd h
  lower_bound (some first) k h =
      λ e. users_UpTo first k h (rw (cmp_str-flip k.user first.user, e) refl)

  upper_bound :
      (last : Option Key) (k : Key)
      → UpToLast last k
      → cmp_str k.user (unwrap_or no_key last).user ≢ Ordering.gt
  upper_bound none k h = absurd h
  upper_bound (some last) k h = users_UpTo k last h

  finish_entries-IsTable :
      (es : List Entry) (bs : List Block) (w : SsTableWriter env) (meta : SsTableMeta)
      → IsFilled env es bs [] w
      → (finish_entries env w).0 ≡ ok (some meta)
      → length (blocks_bytes env bs) < 2 ^ 64
      → IsTable env (stored (finish_entries env w).1) meta bs
  finish_entries-IsTable es bs w meta f h small =
      let (done, file, index, bloom, first, last) = finish_entries_inv w meta h in
      let all : es ≡ all_entries bs = f.split ∙ append-nil (all_entries bs) in
      record {
        rest = tail_bytes w (bloom_of w);
        blocks =
            ap stored file
            ∙ stored-write_tail w (bloom_of w) w.file done
            ∙ ap (λ b. b ++ tail_bytes w (bloom_of w)) f.written;
        index = index ∙ f.index;
        well_formed = f.blocks;
        fits = small;
        filtered =
            rw (bloom, ← all)
              (All-imp _ _ (λ (e : Entry) m. may_contain-build env w.hashes bits_per_key e.0.user m)
                es f.noted.hashed);
        lower =
            rw (first, ← all)
              (All-imp _ _ (λ (e : Entry) x. lower_bound w.first_key e.0 x) es f.noted.from);
        upper =
            rw (last, ← all)
              (All-imp _ _ (λ (e : Entry) x. upper_bound w.last_key e.0 x) es f.noted.upto);
      }

  -- `finish` of a writer whose block is empty, or holds entries that it flushes.
  abbrev Finished : List Entry → SsTableWriter env → SsTableMeta → Type 0
  Finished es w meta =
      length (stored (finish env w).1) < 2 ^ 64
      → (bs : List Block) × IsTable env (stored (finish env w).1) meta bs × (all_entries bs ≡ es)

  pub finish_inv :
      (w : SsTableWriter env) (meta : SsTableMeta)
      → (finish env w).0 ≡ ok (some meta)
      → ((flush_block env w).0 ≡ ok tt) × (finish env w ≡ finish_entries env (flush_block env w).1)
  unfolding finish
  finish_inv w meta h = ground (arith, h)

  finished :
      (es : List Entry) (bs : List Block) (w : SsTableWriter env) (meta : SsTableMeta)
      → IsFilled env es bs [] (flush_block env w).1
      → (finish env w).0 ≡ ok (some meta)
      → Finished es w meta
  finished es bs w meta f h small =
      let (flushed, e) = finish_inv w meta h in
      let w' = (flush_block env w).1 in
      let run = rw e at h in
      let (done, file, _, _, _, _) = finish_entries_inv w' meta run in
      let size : length (blocks_bytes env bs) < 2 ^ 64 = omega (
        arith,
        rw e at small,
        ap (λ x. length (stored x)) file,
        ap length (stored-write_tail w' (bloom_of w') w'.file done),
        length-append (content env w'.file) (tail_bytes w' (bloom_of w')),
        ap length f.written,
      ) in
      (
        bs,
        rw e (finish_entries-IsTable es bs w' meta f run size),
        sym (f.split ∙ append-nil (all_entries bs)),
      )

  flush_nothing : (w : SsTableWriter env) → w.block ≡ blank ++ [] → flush_block env w ≡ (ok tt, w)
  unfolding flush_block
  flush_nothing w h = rw (flush_block, h) refl

  -- Behind the flush of its last block, a writer has written all entries.
  pub flush-Filled :
      (es : List Entry) (w : SsTableWriter env)
      → Given env es w
      → (flush_block env w).0 ≡ ok tt
      → (bs : List Block) × IsFilled env es bs [] (flush_block env w).1
  unfolding pairs_bytes
  flush-Filled es w (bs, (cur, f)) h = elim f.current [
    | inl e ↦
        let g : IsFilled env es bs [] w = subst (λ c. IsFilled env es bs c w) e f in
        (bs, rw (flush_nothing w g.waiting) g)
    | inr (b, e, last) ↦
        let g : IsFilled env es bs (entries_of b) w = subst (λ c. IsFilled env es bs c w) e f in
        (bs ++ b ∷ [], flush-Given env es bs b w g last h)
  ]

  finish-Given :
      (es : List Entry) (w : SsTableWriter env) (meta : SsTableMeta)
      → Given env es w
      → (finish env w).0 ≡ ok (some meta)
      → Finished es w meta
  finish-Given es w meta g h =
      let (bs, f) = flush-Filled es w g (finish_inv w meta h).0 in finished es bs w meta f h

  -- Where entries that read back are added to a new table in turn and it is finished, all without an
  -- error, and the file is shorter than 2^64 bytes, a `get` on the table finds what a scan of the
  -- entries finds: the newest version that the snapshot may see.
  pub get_table-finish :
      (file : BufWriter) (es : List Entry) (meta : SsTableMeta) (user : Bytes) (snapshot : ℕ)
      → content env file ≡ []
      → All (ReadablePair env) es
      → (add_all env es (create env file)).0 ≡ ok tt
      → (finish env (add_all env es (create env file)).1).0 ≡ ok (some meta)
      → length (stored (finish env (add_all env es (create env file)).1).1) < 2 ^ 64
      → get_table env
          (stored (finish env (add_all env es (create env file)).1).1)
          meta
          user
          snapshot
        ≡ ok (says (lookup_entry user snapshot es))
  get_table-finish file es meta user s empty readable added done small =
      let w = (add_all env es (create env file)).1 in
      let start : Given env [] (create env file) = ([], ([], create-IsFilled env file empty)) in
      let given = add_all-Given env [] es (create env file) start readable added in
      let (bs, table, all) = finish-Given es w meta given done small in
      get_table_lem env (stored (finish env w).1) meta bs user s table
      ∙ ap (λ es. ok (says (lookup_entry user s es))) all
