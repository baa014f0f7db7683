-- ===== src/Sstable/Scan/Table/Yields.antt =====
-- A scan of a table yields all its entries.
use lowdb.Prelude.{
  ℕ, ◌+◌, ◌-◌, ◌≤◌, ◌<◌, ◌≡◌, refl, ap, sym, subst, ◌∙◌, some, List, [], ◌∷◌, ◌++◌, length,
  length-append, append_assoc, All, arith, false, ltb, leb, ◌==◌, if◌then◌else◌,
}
use lowdb.Prelude.Bytes.{Bytes, to_be, length-to_be}
use lowdb.Common.Key
use lowdb.Common.Key.{Key}
use lowdb.Common.Value
use lowdb.Common.Value.{Value, set, delete}
use lowdb.Common.Error.{ok, err, invalid_state, ◌>>=◌}
use lowdb.Env.{Env}
use lowdb.Wal.Writer.Encoding.{pair_bytes, pairs_bytes, value_bytes}
use lowdb.Wal.Reader.RoundTrip.{ReadablePair, ReadableValue, uint_back}
use lowdb.Sstable.Index.{stream_key, stream_value}
use lowdb.Sstable.Scan.Compaction.Yields.{Yields}
use lowdb.Sstable.Scan.Table.{
  TableScan, check_block, scan_entry, scan_checked, scan_next, checked_sub,
}
use lowdb.Sstable.Table.Layout.{
  Entry, Block, entries_of, all_entries, disk_block, blocks_bytes, IsBlock, length-disk_block,
}

length-value_bytes : (v : Value) → length (value_bytes v) ≡ Value.disk_size v
unfolding value_bytes Value.disk_size Value.heap_size
length-value_bytes (set v) =
    omega (arith, length-append (to_be 2 (length v)) v, length-to_be 2 (length v))
length-value_bytes delete = length-to_be 2 0

length-pair_bytes :
    (k : Key) (v : Value) → length (pair_bytes k v) ≡ Key.disk_size k + Value.disk_size v
unfolding pair_bytes Key.disk_size Key.heap_size
length-pair_bytes k v = omega (
  arith,
  length-append (to_be 2 (length k.user)) (k.user ++ (to_be 8 k.seq ++ value_bytes v)),
  length-append k.user (to_be 8 k.seq ++ value_bytes v),
  length-append (to_be 8 k.seq) (value_bytes v),
  length-to_be 2 (length k.user),
  length-to_be 8 k.seq,
  length-value_bytes v,
)

module _ (env : Env) where
  pub stream_key-back :
      (k : Key) (v : Value) (rest : Bytes)
      → ReadablePair env (k, v)
      → stream_key env (pair_bytes k v ++ rest) ≡ ok (k, value_bytes v ++ rest)
  unfolding stream_key pair_bytes
  stream_key-back k v rest (hl, hu, hs, hv) = simp append_assoc (
      rw
        (
          stream_key,
          uint_back env 2 (length k.user) _ hl,
          env.read_exact_ok k.user (to_be 8 k.seq ++ (value_bytes v ++ rest)),
          uint_back env 8 k.seq (value_bytes v ++ rest) hs,
          env.from_utf8_lossy_valid k.user hu,
        )
        refl)

  stream_value-back :
      (v : Value) (rest : Bytes)
      → ReadableValue env v
      → stream_value env (value_bytes v ++ rest) ≡ ok (v, rest)
  unfolding stream_value value_bytes
  stream_value-back (set v) rest (pos, fits, u) =
      rw (append_assoc, stream_value, uint_back env 2 (length v) _ fits)
        (ground (arith, env.read_exact_ok v rest, env.from_utf8_lossy_valid v u))
  stream_value-back delete rest h = rw (stream_value, uint_back env 2 0 rest (omega arith)) refl

  scan_entry-at :
      (k : Key) (v : Value) (r : Bytes) (b m : ℕ)
      → ReadablePair env (k, v)
      → b < 65536
      → let used = Key.disk_size k + Value.disk_size v in
        scan_entry env
          (record { r = pair_bytes k v ++ r; block_remaining = used + b; remaining = used + m })
        ≡ ok (some (k, v), record { r = r; block_remaining = b; remaining = m })
  unfolding scan_entry
  scan_entry-at k v r b m h small =
      let used = Key.disk_size k + Value.disk_size v in
      let (_, _, _, hv) = h in
      let left : (if leb used (used + b)
            then (if ltb ((used + b) - used) 65536
                then ok ((used + b) - used)
                else err invalid_state)
            else err invalid_state)
          ≡ ok b =
        let rest : (used + b) - used ≡ b = omega arith in rw rest (ground (arith, small)) in
      let remaining : checked_sub (used + m) used ≡ ok m =
        let rest : (used + m) - used ≡ m = omega arith in rw rest (ground arith) in
      rw (scan_entry, stream_key-back k v r h, stream_value-back v r hv, left, remaining) refl

  -- A scan with the entries `cur` of its block and the blocks `bs` before it.
  abbrev inside : List Entry → List Block → Bytes → TableScan
  inside cur bs rest = record {
    r = pairs_bytes cur ++ (blocks_bytes env bs ++ rest);
    block_remaining = length (pairs_bytes cur);
    remaining = length (pairs_bytes cur) + length (blocks_bytes env bs);
  }

  check_block-at :
      (b : Block) (bs : List Block) (rest : Bytes)
      → IsBlock env b
      → check_block env (inside [] (b ∷ bs) rest) ≡ ok (inside (entries_of b) bs rest)
  unfolding check_block blocks_bytes pairs_bytes
  check_block-at b bs rest h =
      let payload = pairs_bytes (entries_of b) in
      let behind = blocks_bytes env bs ++ rest in
      let size = length-disk_block env b in
      let sum = env.crc32 payload in
      let all : (disk_block env b ++ blocks_bytes env bs) ++ rest
          ≡ to_be 4 sum ++ (to_be 2 (length payload) ++ (payload ++ behind)) =
        simp append_assoc in
      let left : checked_sub (0 + length (disk_block env b ++ blocks_bytes env bs)) 6
          ≡ ok (length payload + length (blocks_bytes env bs)) =
        let rest : (0 + length (disk_block env b ++ blocks_bytes env bs)) - 6
            ≡ length payload + length (blocks_bytes env bs) =
          omega (arith, size, length-append (disk_block env b) (blocks_bytes env bs)) in
        rw rest (ground (arith, size, length-append (disk_block env b) (blocks_bytes env bs))) in
      rw
        (
          check_block,
          all,
          uint_back env 4 sum _ (env.crc32_u32 payload),
          uint_back env 2 (length payload) (payload ++ behind) (omega (arith, size, h.fits)),
          left,
          env.read_exact_ok payload behind,
        )
        (ground arith)

  used_some : (k : Key) (v : Value) → 1 ≤ Key.disk_size k + Value.disk_size v
  unfolding Key.disk_size Value.disk_size
  used_some k v = omega arith

  -- Inside a block a scan returns the next entry.
  scan_next-inside :
      (k : Key) (v : Value) (cur : List Entry) (bs : List Block) (rest : Bytes)
      → ReadablePair env (k, v)
      → length (pairs_bytes ((k, v) ∷ cur)) < 65536
      → (scan_next env (inside ((k, v) ∷ cur) bs rest) ≡ ok (some (k, v), inside cur bs rest))
        × (scan_checked env (inside ((k, v) ∷ cur) bs rest) ≡ ok (some (k, v), inside cur bs rest))
  unfolding scan_next scan_checked pairs_bytes
  scan_next-inside k v cur bs rest h small =
      let used = Key.disk_size k + Value.disk_size v in
      let size : length (pair_bytes k v ++ pairs_bytes cur) ≡ used + length (pairs_bytes cur) =
        length-append (pair_bytes k v) (pairs_bytes cur)
        ∙ ap (λ n. n + length (pairs_bytes cur)) (length-pair_bytes k v) in
      let total : (used + length (pairs_bytes cur)) + length (blocks_bytes env bs)
          ≡ used + (length (pairs_bytes cur) + length (blocks_bytes env bs)) =
        omega arith in
      let bytes = append_assoc (pair_bytes k v) (pairs_bytes cur) (blocks_bytes env bs ++ rest) in
      let step =
        scan_entry-at k v (pairs_bytes cur ++ (blocks_bytes env bs ++ rest))
          (length (pairs_bytes cur)) (length (pairs_bytes cur) + length (blocks_bytes env bs)) h
          (omega (arith, small, size)) in
      let some_used : ((used + length (pairs_bytes cur)) == 0) ≡ false =
        ground (arith, used_some k v) in
      let some_left : ((used + (length (pairs_bytes cur) + length (blocks_bytes env bs))) == 0)
          ≡ false =
        ground (arith, used_some k v) in
      (
        rw (scan_next, size, total, some_left, some_used, bytes) step,
        rw (scan_checked, size, some_used, bytes, total) step,
      )

  -- At the head of the entries of a block a scan that has checked the block goes on as `scan_next` does.
  checked_inside :
      (init : List Entry) (last : Entry) (bs : List Block) (rest : Bytes)
      → All (ReadablePair env) (init ++ last ∷ [])
      → length (pairs_bytes (init ++ last ∷ [])) < 65536
      → scan_checked env (inside (init ++ last ∷ []) bs rest)
        ≡ scan_next env (inside (init ++ last ∷ []) bs rest)
  checked_inside [] (k, v) bs rest h small =
      let (a, b) = scan_next-inside k v [] bs rest h.0 small in b ∙ sym a
  checked_inside ((k, v) ∷ init) last bs rest h small =
      let (a, b) = scan_next-inside k v (init ++ last ∷ []) bs rest h.0 small in b ∙ sym a

  -- At the end of a block a scan goes on as if it stood inside the next one.
  scan_next-block :
      (b : Block) (bs : List Block) (rest : Bytes)
      → IsBlock env b
      → scan_next env (inside [] (b ∷ bs) rest) ≡ scan_next env (inside (entries_of b) bs rest)
  unfolding scan_next blocks_bytes pairs_bytes
  scan_next-block b bs rest h =
      let size = length-disk_block env b in
      let some_left : ((0 + length (disk_block env b ++ blocks_bytes env bs)) == 0) ≡ false =
        ground (arith, size, length-append (disk_block env b) (blocks_bytes env bs)) in
      let small : length (pairs_bytes (entries_of b)) < 65536 = omega (arith, size, h.fits) in
      let opened : scan_next env (inside [] (b ∷ bs) rest)
          ≡ scan_checked env (inside (entries_of b) bs rest) =
        rw (scan_next, some_left) (ap (λ r. r >>= scan_checked env) (check_block-at b bs rest h)) in
      opened ∙ checked_inside b.init b.last bs rest h.readable small

  Yields-same :
      (es : List Entry) (s s' : TableScan)
      → scan_next env s ≡ scan_next env s'
      → Yields (scan_next env) s' es
      → Yields (scan_next env) s es
  Yields-same [] s s' e (t, h) = (t, e ∙ h)
  Yields-same (x ∷ es) s s' e (t, h, y) = (t, e ∙ h, y)

  Yields-inside :
      (cur : List Entry) (bs : List Block) (rest : Bytes)
      → All (ReadablePair env) cur
      → length (pairs_bytes cur) < 65536
      → Yields (scan_next env) (inside [] bs rest) (all_entries bs)
      → Yields (scan_next env) (inside cur bs rest) (cur ++ all_entries bs)
  unfolding pairs_bytes
  Yields-inside [] bs rest h small y = y
  Yields-inside ((k, v) ∷ cur) bs rest (h, hs) small y =
      let short : length (pairs_bytes cur) < 65536 =
        omega (arith, small, length-append (pair_bytes k v) (pairs_bytes cur)) in
      (
        inside cur bs rest,
        (scan_next-inside k v cur bs rest h small).0,
        Yields-inside cur bs rest hs short y,
      )

  blocks-Yields :
      (bs : List Block) (rest : Bytes)
      → All (IsBlock env) bs
      → Yields (scan_next env) (inside [] bs rest) (all_entries bs)
  unfolding all_entries
  blocks-Yields [] rest h = (inside [] [] rest, unfold scan_next blocks_bytes pairs_bytes in refl)
  blocks-Yields (b ∷ bs) rest (h, hs) =
      Yields-same (entries_of b ++ all_entries bs) (inside [] (b ∷ bs) rest)
        (inside (entries_of b) bs rest) (scan_next-block b bs rest h)
        (Yields-inside (entries_of b) bs rest h.readable
          (omega (arith, length-disk_block env b, h.fits)) (blocks-Yields bs rest hs))

  -- A scan that starts at the blocks of a table, with their length left to read and whatever behind them,
  -- yields all their entries in order, and then none. The blocks hold entries that read back, each in
  -- order up to its last, and are shorter than 65536 bytes.
  pub scan-Yields :
      (bs : List Block) (rest : Bytes)
      → All (IsBlock env) bs
      → Yields
          (scan_next env)
          (record {
            r = blocks_bytes env bs ++ rest;
            block_remaining = 0;
            remaining = length (blocks_bytes env bs);
          })
          (all_entries bs)
  unfolding pairs_bytes
  scan-Yields bs rest h =
      let start : 0 + length (blocks_bytes env bs) ≡ length (blocks_bytes env bs) = omega arith in
      subst
        (λ n.
          Yields (scan_next env)
            (record { r = blocks_bytes env bs ++ rest; block_remaining = 0; remaining = n })
            (all_entries bs))
        start (blocks-Yields bs rest h)
