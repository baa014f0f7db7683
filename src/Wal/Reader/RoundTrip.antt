-- ===== src/Wal/Reader/RoundTrip.antt =====
-- The reader reads back what the writer's records hold.
use lowdb.Prelude.{
  ℕ, ◌^◌, ◌<◌, ◌≡◌, refl, some, List, [], ◌∷◌, ◌++◌, length, append_assoc, append-nil, arith, All,
  true,
}
use lowdb.Prelude.Bytes.{Bytes, to_be, from_be-to_be, length-to_be}
use lowdb.Common.Key.{Key}
use lowdb.Common.Value.{Value, set, delete}
use lowdb.Common.Error.{ok}
use lowdb.Env.{Env}
use lowdb.Wal.{
  WalCmd, tx_begin, tx_commit, op, batch, tx_begin_cmd, tx_commit_cmd, op_cmd, batch_cmd,
}
use lowdb.Wal.Writer.Encoding.{value_bytes, pair_bytes, pairs_bytes, encode_cmd}
use lowdb.Wal.Reader.{read_str, read_key, read_value, read_key_value, read_pairs, read_cmd, next}

abbrev pub IsU64 : ℕ → Type 0
IsU64 v = v < 256 ^ 8

module _ (env : Env) where
  open env use {read_exact, read_uint, is_utf8, from_utf8_lossy}

  -- What the Rust types of a command guarantee (words in range, texts that are UTF-8), with lengths
  -- that a record has room for, and no empty text as a value.
  abbrev pub ReadableValue : Value → Type 0
  ReadableValue (set v) = (0 < length v) × (length v < 65536) × (is_utf8 v ≡ true)
  ReadableValue delete = Unit

  abbrev pub ReadablePair : Key × Value → Type 0
  ReadablePair (k, v) =
      (length k.user < 65536) × (is_utf8 k.user ≡ true) × IsU64 k.seq × ReadableValue v

  abbrev pub Readable : WalCmd → Type 0
  Readable (tx_begin t) = IsU64 t
  Readable (tx_commit t) = IsU64 t
  Readable (op t k v) = IsU64 t × ReadablePair (k, v)
  Readable (batch t kvs) = IsU64 t × (length kvs < 65536) × All ReadablePair kvs

  pub uint_back :
      (n v : ℕ) (rest : Bytes) → v < 256 ^ n → read_uint n (to_be n v ++ rest) ≡ ok (v, rest)
  uint_back n v rest h =
      rw (length-to_be n v, from_be-to_be n v h) at (env.read_uint_ok (to_be n v) rest)

  pub str_back :
      (s rest : Bytes) → is_utf8 s ≡ true → read_str env (length s) (s ++ rest) ≡ ok (s, rest)
  unfolding read_str
  str_back s rest u = rw (env.read_exact_ok s rest, env.from_utf8_lossy_valid s u)

  key_back :
      (k : Key) (rest : Bytes)
      → length k.user < 65536
      → is_utf8 k.user ≡ true
      → IsU64 k.seq
      → read_key env (to_be 2 (length k.user) ++ (k.user ++ (to_be 8 k.seq ++ rest))) ≡ ok (k, rest)
  unfolding read_key
  key_back k rest hl hu hs =
      rw (uint_back 2 _ _ hl, str_back k.user _ hu, uint_back 8 k.seq rest hs)

  value_back :
      (v : Value) (rest : Bytes)
      → ReadableValue v
      → read_value env (value_bytes v ++ rest) ≡ ok (v, rest)
  unfolding read_value value_bytes
  value_back (set v) rest (pos, fits, u) =
      rw (append_assoc, uint_back 2 (length v) _ fits) (ground (arith, str_back v rest u))
  value_back delete rest h = rw (uint_back 2 0 rest (omega arith))

  pair_back :
      (k : Key) (v : Value) (rest : Bytes)
      → ReadablePair (k, v)
      → read_key_value env (pair_bytes k v ++ rest) ≡ ok ((k, v), rest)
  unfolding read_key_value pair_bytes
  pair_back k v rest (hl, hu, hs, hv) =
      simp append_assoc (rw (key_back k (value_bytes v ++ rest) hl hu hs, value_back v rest hv))

  pairs_back :
      (kvs : List (Key × Value)) (rest : Bytes)
      → All ReadablePair kvs
      → read_pairs env (length kvs) (pairs_bytes kvs ++ rest) ≡ ok (kvs, rest)
  unfolding read_pairs pairs_bytes
  pairs_back [] rest h = refl
  pairs_back ((k, v) ∷ kvs) rest (h, hs) =
      rw (append_assoc, pair_back k v (pairs_bytes kvs ++ rest) h, pairs_back kvs rest hs)

  -- The record of a command is read back as that command, whatever follows it, where the words of
  -- the command are in range, its keys and values are UTF-8 and fit their length fields, no value
  -- is the empty text, and a batch has fewer than 65536 pairs.
  pub next-encode_cmd :
      (c : WalCmd) (rest : Bytes) → Readable c → next env (encode_cmd c ++ rest) ≡ ok (some c, rest)
  unfolding next read_cmd encode_cmd
  next-encode_cmd (tx_begin t) rest h =
      rw (append_assoc, next, uint_back 1 tx_begin_cmd _ (omega arith), uint_back 8 t rest h)
  next-encode_cmd (tx_commit t) rest h =
      rw (append_assoc, next, uint_back 1 tx_commit_cmd _ (omega arith), uint_back 8 t rest h)
  next-encode_cmd (op t k v) rest (ht, h) =
      simp append_assoc
        (rw (next, uint_back 1 op_cmd _ (omega arith), uint_back 8 t _ ht, pair_back k v rest h))
  next-encode_cmd (batch t kvs) rest (ht, hl, h) = simp append_assoc (
      rw (
        next,
        uint_back 1 batch_cmd _ (omega arith),
        uint_back 2 (length kvs) _ hl,
        uint_back 8 t _ ht,
        pairs_back kvs rest h,
      ))

  -- The record of an operation that sets a key to the empty text is read back as the deletion of
  -- the key, where the words are in range and the key is UTF-8 and fits its length field.
  pub next-empty_value :
      (t : ℕ) (k : Key) (rest : Bytes)
      → Readable (op t k delete)
      → next env (encode_cmd (op t k (set [])) ++ rest) ≡ ok (some (op t k delete), rest)
  unfolding encode_cmd pair_bytes value_bytes
  next-empty_value t k rest h =
      rw (append-nil)
        (unfold encode_cmd pair_bytes value_bytes in next-encode_cmd (op t k delete) rest h)
