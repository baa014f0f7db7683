-- ===== src/Sstable/Cursor/RoundTrip.antt =====
-- A cursor on a block reads back the entries that were encoded into it.
use lowdb.Prelude.{
  ℕ, zero, suc, ◌<◌, ◌^◌, ◌≡◌, true, false, none, some, List, [], ◌∷◌, ◌++◌, length, length-append,
  append_assoc, append-nil, take-length-append, drop-length-append, leb, ◌==◌, arith, All, All-imp,
}
use lowdb.Prelude.Bytes.{Bytes, to_be, from_be-to_be, length-to_be}
use lowdb.Common.Key.{Key}
use lowdb.Common.Value.{Value, set, delete}
use lowdb.Common.Error.{DbResult, ok, err, invalid_state, ◌>>=◌}
use lowdb.Env.{Env}
use lowdb.Wal.Writer.Encoding.{pair_bytes, value_bytes, pairs_bytes, FitsPair}
use lowdb.Wal.Reader.RoundTrip.{ReadablePair, ReadableValue}
use lowdb.Sstable.Encode.{encode_all, encode_all_lem}
use lowdb.Sstable.Cursor.{
  Cursor, slice, take_bytes, take_uint, open_block, take_str, take_value, next_entry, block_header,
}

-- A cursor between the bytes that it has read and those that it has not.
abbrev pub at : Bytes → Bytes → Cursor
at front back = record { buf = front ++ back; pos = length front }

slice-at : (front s back : Bytes) → slice (front ++ (s ++ back)) (length front) (length s) ≡ ok s
unfolding slice
slice-at front s back =
    let whole = length-append front (s ++ back) in
    let rest = length-append s back in
    rw (drop-length-append front (s ++ back), take-length-append s back) (ground arith)

take_bytes-at :
    (front s back : Bytes)
    → take_bytes (length s) (at front (s ++ back)) ≡ ok (s, at (front ++ s) back)
unfolding take_bytes
take_bytes-at front s back =
    rw (slice-at front s back, length-append front s, append_assoc front s back)

take_uint-at :
    (n v : ℕ) (front back : Bytes)
    → v < 256 ^ n
    → take_uint n (at front (to_be n v ++ back)) ≡ ok (v, at (front ++ to_be n v) back)
unfolding take_uint
take_uint-at n v front back h =
    let read = rw (length-to_be n v) at (take_bytes-at front (to_be n v) back) in
    rw (read, from_be-to_be n v h)

module _ (env : Env) where
  open env use {is_utf8, crc32}

  take_str-at :
      (front s back : Bytes)
      → is_utf8 s ≡ true
      → take_str env (length s) (at front (s ++ back)) ≡ ok (s, at (front ++ s) back)
  unfolding take_str
  take_str-at front s back u = rw (take_bytes-at front s back, u)

  take_value-at :
      (front back : Bytes) (v : Value)
      → ReadableValue env v
      → take_value env (at front (value_bytes v ++ back)) ≡ ok (v, at (front ++ value_bytes v) back)
  unfolding take_value value_bytes
  take_value-at front back (set v) (pos, fits, u) =
      rw
        (append_assoc (to_be 2 (length v)) v back, take_uint-at 2 (length v) front (v ++ back) fits)
        (ground (
          arith,
          take_str-at (front ++ to_be 2 (length v)) v back u,
          append_assoc front (to_be 2 (length v)) v,
        ))
  take_value-at front back delete h = rw (take_uint-at 2 0 front back (omega arith))

  unread :
      (front s back : Bytes)
      → 0 < length s
      → leb (length (front ++ (s ++ back))) (length front) ≡ false
  unread front s back h =
      let whole = length-append front (s ++ back) in let rest = length-append s back in ground arith

  pub next_entry_end : (front : Bytes) → next_entry env (at front []) ≡ ok (none, at front [])
  unfolding next_entry
  next_entry_end front =
      let over : leb (length (front ++ [])) (length front) ≡ true =
        rw (append-nil front) (ground arith) in
      rw (next_entry, over)

  pub next_entry-at :
      (front back : Bytes) (k : Key) (v : Value)
      → ReadablePair env (k, v)
      → next_entry env (at front (pair_bytes k v ++ back))
        ≡ ok (some (k, v), at (front ++ pair_bytes k v) back)
  unfolding next_entry pair_bytes
  next_entry-at front back k v (hl, hu, hs, hv) =
      let len = to_be 2 (length k.user) in
      let seq = to_be 8 k.seq in
      simp append_assoc (
        rw
          (
            next_entry,
            unread front len (k.user ++ (seq ++ (value_bytes v ++ back)))
                (omega (arith, length-to_be 2 (length k.user))),
            take_uint-at 2 (length k.user) front (k.user ++ (seq ++ (value_bytes v ++ back))) hl,
            take_str-at (front ++ len) k.user (seq ++ (value_bytes v ++ back)) hu,
            take_uint-at 8 k.seq ((front ++ len) ++ k.user) (value_bytes v ++ back) hs,
            take_value-at (((front ++ len) ++ k.user) ++ seq) back v hv,
          )
          (simp append_assoc))

  -- The entries behind a cursor, in at most so many steps.
  unfoldable pub read_entries : ℕ → Cursor → DbResult (List (Key × Value))
  read_entries zero c = err invalid_state
  read_entries (suc n) c = do
    (entry, c') ← next_entry env c
    elim entry [ none ↦ ok [] | some e ↦ do es ← read_entries n c'; ok (e ∷ es) ]

  read_entries-at :
      (es : List (Key × Value)) (front : Bytes) (n : ℕ)
      → All (ReadablePair env) es
      → length es < n
      → read_entries n (at front (pairs_bytes es)) ≡ ok es
  unfolding read_entries pairs_bytes
  read_entries-at es front zero h e = absurd (omega arith)
  read_entries-at [] front (suc n) h e = rw (read_entries, next_entry_end front)
  read_entries-at ((k, v) ∷ es) front (suc n) (h, hs) e = rw (
    read_entries,
    next_entry-at front (pairs_bytes es) k v h,
    read_entries-at es (front ++ pair_bytes k v) n hs (omega arith),
  )

  -- A block as the writer puts it on disk: the checksum and the length of the payload, and the payload.
  abbrev pub block_of : Bytes → Bytes
  block_of payload = to_be 4 (crc32 payload) ++ (to_be 2 (length payload) ++ payload)

  pub open_block_of :
      (payload : Bytes)
      → length payload < 65536
      → open_block env (block_of payload)
        ≡ ok (at (to_be 4 (crc32 payload) ++ to_be 2 (length payload)) payload)
  unfolding open_block
  open_block_of payload h =
      let sum = to_be 4 (crc32 payload) in
      let len = to_be 2 (length payload) in
      let same : (crc32 payload == crc32 payload) ≡ true = ground arith in
      let six : length (sum ++ len) ≡ 6 = omega (
        arith,
        length-append sum len,
        length-to_be 4 (crc32 payload),
        length-to_be 2 (length payload),
      ) in
      let inside : slice (block_of payload) block_header (length payload) ≡ ok payload =
        rw (append_assoc, append-nil, six) at (slice-at (sum ++ len) payload []) in
      rw (
        open_block,
        take_uint-at 4 (crc32 payload) [] (len ++ payload) (env.crc32_u32 payload),
        take_uint-at 2 (length payload) sum payload h,
        inside,
        same,
      )

  -- Entries that fit a block are encoded without an error, and a cursor that is opened on the block
  -- passes the checksum and reads back exactly these entries.
  pub read_entries-encode_all :
      (es : List (Key × Value))
      → All (ReadablePair env) es
      → length (pairs_bytes es) < 65536
      → (encode_all es [] ≡ (ok tt, pairs_bytes es))
        × ((open_block env (block_of (encode_all es []).1) >>= read_entries (suc (length es)))
            ≡ ok es)
  read_entries-encode_all es h fits =
      let stored = encode_all_lem es [] (All-imp _ _ fits_pair es h) in
      (
        stored,
        rw (stored, open_block_of (pairs_bytes es) fits)
            (read_entries-at es _ (suc (length es)) h (omega arith)),
      )
    where
      fits_pair : (e : Key × Value) → ReadablePair env e → FitsPair e
      fits_pair (k, set v) (hl, _, _, (_, fits, _)) = (hl, fits)
      fits_pair (k, delete) (hl, _, _, _) = (hl, tt)
