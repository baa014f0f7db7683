-- ===== src/Sstable/Table/Reads.antt =====
-- A lookup in a table finds what a scan of all its entries finds.
use lowdb.Prelude.{
  ℕ, zero, suc, ◌+◌, ◌%◌, ◌^◌, ◌≤◌, ◌<◌, ◌≡◌, ◌≢◌, inl, inr, refl, subst, true, false, Bool-cases,
  Ordering, Ordering-cases, none, some, List, [], ◌∷◌, ◌++◌, length, length-append, append_assoc,
  take-length-append, drop-length-append, get_elem?, All, All-append, All-imp, arith,
}
use lowdb.Prelude.Bytes.{Bytes, to_be, length-to_be}
use lowdb.Common.Key.{Key, cmp, cmp_str, is_less, is_greater}
use lowdb.Common.Key.Order.{eq_of_cmp_str, cmp_trans, eq_of_cmp}
use lowdb.Common.Value.{set, delete}
use lowdb.Common.Error.{ok}
use lowdb.Env.{Env}
use lowdb.Memtable.Sorted.{AllLow, lookup_entry, lookup_entry-append_low}
use lowdb.Memtable.Table.Reads.{says}
use lowdb.Wal.Writer.Encoding.{pairs_bytes, pair_bytes}
use lowdb.Wal.Reader.RoundTrip.{ReadablePair}
use lowdb.Sstable.Bloom.{may_contain}
use lowdb.Sstable.Cursor.RoundTrip.{at, open_block_of, next_entry-at, next_entry_end}
use lowdb.Sstable.Table.{
  SsTableMeta, read_exact_at, partition_point, read_block, scan_block, get_from_block, get_table,
}
use lowdb.Sstable.Table.Layout.{
  Entry, Block, entries_of, all_entries, disk_block, blocks_bytes, index_from, IsBlock,
  length-disk_block,
}

-- Where no entry is of the key, a lookup finds none.
pub lookup_entry-none :
    (key : Bytes) (s : ℕ) (es : List Entry)
    → All (λ (e : Entry). e.0.user ≢ key) es
    → lookup_entry key s es ≡ none
unfolding lookup_entry
lookup_entry-none key s [] h = refl
lookup_entry-none key s ((k, v) ∷ es) (h, hs) =
    let rest = lookup_entry-none key s es hs in
    let other : cmp_str k.user key ≢ Ordering.eq = λ e. h (eq_of_cmp_str k.user key e) in
    ground (arith, other)

nothing_of :
    (key : Bytes) (s : ℕ) (P : Bytes → Type 0) (es : List Entry)
    → All (λ (e : Entry). P e.0.user) es
    → (P key → ⊥)
    → lookup_entry key s es ≡ none
nothing_of key s P es h no_key = lookup_entry-none key s es (
    All-imp (λ (e : Entry). P e.0.user) (λ (e : Entry). e.0.user ≢ key)
      (λ e p eq. no_key (subst P eq p)) es h)

-- A lookup does not go beyond an entry at or behind its target.
lookup_entry_stops :
    (key : Bytes) (s : ℕ) (init : List Entry) (e : Entry) (ys : List Entry)
    → cmp e.0 (record { user = key; seq = s }) ≢ Ordering.lt
    → lookup_entry key s ((init ++ e ∷ []) ++ ys) ≡ lookup_entry key s (init ++ e ∷ [])
unfolding lookup_entry
lookup_entry_stops key s [] e ys h = ground (arith, h)
lookup_entry_stops key s ((k, v) ∷ init) e ys h =
    let rest = lookup_entry_stops key s init e ys h in ground (arith, rest)

module _ (env : Env) where
  scan_block-at :
      (user : Bytes) (s : ℕ) (es : List Entry) (front : Bytes) (n : ℕ)
      → All (ReadablePair env) es
      → length es < n
      → scan_block env n (at front (pairs_bytes es)) (record { user = user; seq = s })
        ≡ ok (says (lookup_entry user s es))
  unfolding scan_block pairs_bytes lookup_entry
  scan_block-at user s es front zero h lt = absurd (omega arith)
  scan_block-at user s [] front (suc n) h lt = rw (scan_block, next_entry_end env front) refl
  scan_block-at user s ((k, set v) ∷ es) front (suc n) (h, hs) lt =
      let rest = scan_block-at user s es (front ++ pair_bytes k (set v)) n hs (omega arith) in
      rw (scan_block, next_entry-at env front (pairs_bytes es) k (set v) h) (ground (arith, rest))
  scan_block-at user s ((k, delete) ∷ es) front (suc n) (h, hs) lt =
      let rest = scan_block-at user s es (front ++ pair_bytes k delete) n hs (omega arith) in
      rw (scan_block, next_entry-at env front (pairs_bytes es) k delete h) (ground (arith, rest))

  read_exact_at-append :
      (pre blk post : Bytes) (off : ℕ)
      → off ≡ length pre
      → read_exact_at (pre ++ (blk ++ post)) off (length blk) ≡ ok blk
  unfolding read_exact_at
  read_exact_at-append pre blk post off e =
      let whole = length-append pre (blk ++ post) in
      let rest = length-append blk post in
      rw (e, drop-length-append pre (blk ++ post), take-length-append blk post) (ground arith)

  pairs_short : (es : List Entry) → length es ≤ length (pairs_bytes es)
  unfolding pairs_bytes pair_bytes
  pairs_short [] = omega arith
  pairs_short ((k, v) ∷ es) = omega (
    arith,
    length-append (pair_bytes k v) (pairs_bytes es),
    length-append (to_be 2 (length k.user)) _,
    length-to_be 2 (length k.user),
    pairs_short es,
  )

  module _ (user : Bytes) (s : ℕ) where
    abbrev target : Key
    target = record { user = user; seq = s }

    get_this_block :
        (b : Block) (pre post : Bytes) (off : ℕ)
        → IsBlock env b
        → off ≡ length pre
        → length pre < 2 ^ 64
        → get_from_block env
            (pre ++ (disk_block env b ++ post))
            (some (record {
              key = b.last.0;
              block_off = off % 2 ^ 64;
              block_len = length (disk_block env b);
            }))
            target
          ≡ ok (says (lookup_entry user s (entries_of b)))
    unfolding get_from_block read_block
    get_this_block b pre post off h e small =
        let payload = pairs_bytes (entries_of b) in
        let size = length-disk_block env b in
        rw
          (
            get_from_block,
            read_block,
            read_exact_at-append pre (disk_block env b) post (off % 2 ^ 64) (omega arith),
            open_block_of env payload (omega (arith, h.fits)),
          )
          (scan_block-at user s (entries_of b) _ (suc (length (disk_block env b))) h.readable
            (omega (arith, pairs_short (entries_of b))))

    below_target :
        (x last : Key)
        → cmp x last ≢ Ordering.gt
        → cmp last target ≡ Ordering.lt
        → cmp x target ≡ Ordering.lt
    below_target x last h lt = elim (Ordering-cases (cmp x last)) [
      | inl e ↦ cmp_trans x last target e lt
      | inr (inl e) ↦ rw (eq_of_cmp x last e) lt
      | inr (inr e) ↦ absurd (h e)
    ]

    this_block :
        (b : Block) (bs : List Block) (pre post : Bytes) (off : ℕ)
        → IsBlock env b
        → off ≡ length pre
        → off < 2 ^ 64
        → cmp b.last.0 target ≢ Ordering.lt
        → get_from_block env
            (pre ++ ((disk_block env b ++ blocks_bytes env bs) ++ post))
            (get_elem?
              (index_from env off (b ∷ bs))
              (partition_point target (index_from env off (b ∷ bs))))
            target
          ≡ ok (says (lookup_entry user s (entries_of b ++ all_entries bs)))
    unfolding index_from partition_point
    this_block b bs pre post off h e small not_lt =
        let here : is_less (cmp b.last.0 target) ≡ false = ground (arith, not_lt) in
        rw
          (
            partition_point,
            here,
            append_assoc (disk_block env b) (blocks_bytes env bs) post,
            lookup_entry_stops user s b.init b.last (all_entries bs) not_lt,
          )
          (get_this_block b pre (blocks_bytes env bs ++ post) off h e (omega arith))

    -- The block that the index names is the one where a scan of all blocks stops.
    find_block :
        (bs : List Block) (pre post : Bytes) (off : ℕ)
        → All (IsBlock env) bs
        → off ≡ length pre
        → off + length (blocks_bytes env bs) < 2 ^ 64
        → get_from_block env
            (pre ++ (blocks_bytes env bs ++ post))
            (get_elem? (index_from env off bs) (partition_point target (index_from env off bs)))
            target
          ≡ ok (says (lookup_entry user s (all_entries bs)))
    unfolding blocks_bytes index_from partition_point all_entries lookup_entry
    find_block [] pre post off h e small = unfold get_from_block in refl
    find_block (b ∷ bs) pre post off (h, hs) e small = elim (Ordering-cases (cmp b.last.0 target)) [
      | inl lt ↦
          let low : AllLow target (entries_of b) =
            All-append _ b.init (b.last ∷ [])
              (All-imp _ _ (λ (x : Entry) o. below_target x.0 b.last.0 o lt) b.init h.ordered)
              (lt, tt) in
          let skipped : lookup_entry user s (entries_of b ++ all_entries bs)
              ≡ lookup_entry user s (all_entries bs) =
            lookup_entry-append_low user s (entries_of b) (all_entries bs) low in
          let rest =
            find_block bs (pre ++ disk_block env b) post (off + length (disk_block env b)) hs
              (omega (arith, length-append pre (disk_block env b)))
              (omega (arith, length-append (disk_block env b) (blocks_bytes env bs))) in
          rw
            (
              partition_point,
              lt,
              skipped,
              append_assoc (disk_block env b) (blocks_bytes env bs) post,
            )
            (rw (append_assoc pre (disk_block env b) (blocks_bytes env bs ++ post)) at rest)
      | inr (inl eq) ↦ this_block b bs pre post off h e (omega arith) (λ lt. cc)
      | inr (inr gt) ↦ this_block b bs pre post off h e (omega arith) (λ lt. cc)
    ]

  -- What the writer leaves: the blocks at the head of the file, their index, the bounds of the keys, and
  -- a filter that has every key.
  pub record IsTable (file : Bytes) (meta : SsTableMeta) (bs : List Block) : Type 0 where
    pub rest : Bytes
    pub blocks : file ≡ blocks_bytes env bs ++ rest
    pub index : meta.index ≡ index_from env 0 bs
    pub well_formed : All (IsBlock env) bs
    pub fits : length (blocks_bytes env bs) < 2 ^ 64
    pub filtered : All (λ (e : Entry). may_contain meta.bloom e.0.user ≡ true) (all_entries bs)
    pub lower :
        All (λ (e : Entry). cmp_str e.0.user meta.first_key.user ≢ Ordering.lt) (all_entries bs)
    pub upper :
        All (λ (e : Entry). cmp_str e.0.user meta.last_key.user ≢ Ordering.gt) (all_entries bs)

  -- On a table as the writer leaves it, `get` returns what the newest version says that the snapshot may
  -- see, as a scan of all entries finds it: the key bounds, the filter and the index change nothing.
  pub get_table_lem :
      (file : Bytes) (meta : SsTableMeta) (bs : List Block) (user : Bytes) (snapshot : ℕ)
      → IsTable file meta bs
      → get_table env file meta user snapshot
        ≡ ok (says (lookup_entry user snapshot (all_entries bs)))
  unfolding get_table
  get_table_lem file meta bs user s t =
      let es = all_entries bs in
      let low = is_less (cmp_str user meta.first_key.user) in
      let high = is_greater (cmp_str user meta.last_key.user) in
      elim (Bool-cases low) [
        | inl e ↦
            rw
              (
                get_table,
                e,
                nothing_of user s (λ u. cmp_str u meta.first_key.user ≢ Ordering.lt) es t.lower
                    (λ h. h (ground arith)),
              )
              refl
        | inr above ↦ elim (Bool-cases high) [
          | inl e ↦
              rw
                (
                  get_table,
                  above,
                  e,
                  nothing_of user s (λ u. cmp_str u meta.last_key.user ≢ Ordering.gt) es t.upper
                      (λ h. h (ground arith)),
                )
                refl
          | inr below ↦ elim (Bool-cases (may_contain meta.bloom user)) [
            | inl maybe ↦
                rw (get_table, above, below, maybe, t.index, t.blocks)
                  (find_block user s bs [] t.rest 0 t.well_formed refl (omega (arith, t.fits)))
            | inr denied ↦
                rw
                  (
                    get_table,
                    above,
                    below,
                    denied,
                    nothing_of user s (λ u. may_contain meta.bloom u ≡ true) es t.filtered
                        (λ h. absurd (cc)),
                  )
                  refl
          ]
        ]
      ]
