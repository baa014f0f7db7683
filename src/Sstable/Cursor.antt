-- ===== src/Sstable/Cursor.antt =====
-- sstable/src/cursor.rs. An `EntryRef` is the key and the value that it points to. Where a sum of
-- positions is more than a word holds it is out of the buffer, so both are the error of `corrupt`.
pub mod RoundTrip
use lowdb.Prelude.{
  ℕ, ◌+◌, Bool, true, false, Option, none, some, length, take, drop, leb, ◌==◌, if◌then◌else◌,
}
use lowdb.Prelude.Bytes.{Bytes, from_be}
use lowdb.Common.Key.{Key}
use lowdb.Common.Value.{Value, set, delete}
use lowdb.Common.Error.{DbResult, ok, err, invalid_state, ◌>>=◌}
use lowdb.Env.{Env}

-- sstable/src/lib.rs
abbrev pub block_header : ℕ
block_header = 6

pub record Cursor : Type 0 where
  pub buf : Bytes
  pub pos : ℕ

-- `slice::get(from..from + n)`
unfoldable pub slice : Bytes → ℕ → ℕ → DbResult Bytes
slice buf from n =
    if leb (from + n) (length buf) then ok (take n (drop from buf)) else err invalid_state

unfoldable pub take_bytes : ℕ → Cursor → DbResult (Bytes × Cursor)
take_bytes n c = do s ← slice c.buf c.pos n; ok (s, record c { pos = c.pos + n })

-- `u16`, `u32` and `u64` for `n` = 2, 4 and 8
unfoldable pub take_uint : ℕ → Cursor → DbResult (ℕ × Cursor)
take_uint n c = do (s, c') ← take_bytes n c; ok (from_be s, c')

module _ (env : Env) where
  -- `Cursor::new`
  unfoldable pub open_block : Bytes → DbResult Cursor
  open_block buf = do
    (checksum, c) ← take_uint 4 (record { buf = buf; pos = 0 })
    (len, c') ← take_uint 2 c
    payload ← slice buf block_header len
    if env.crc32 payload == checksum then ok c' else err invalid_state

  -- `take` with `str::from_utf8`
  unfoldable pub take_str : ℕ → Cursor → DbResult (Bytes × Cursor)
  take_str n c = do
    (s, c') ← take_bytes n c
    if env.is_utf8 s then ok (s, c') else err invalid_state

  unfoldable pub take_value : Cursor → DbResult (Value × Cursor)
  take_value c = do
    (len, c') ← take_uint 2 c
    if len == 0 then ok (delete, c') else do (v, c'') ← take_str len c'; ok (set v, c'')

  unfoldable pub next_entry : Cursor → DbResult (Option (Key × Value) × Cursor)
  next_entry c = if leb (length c.buf) c.pos then ok (none, c) else do
    (len, c1) ← take_uint 2 c
    (key, c2) ← take_str len c1
    (seq, c3) ← take_uint 8 c2
    (value, c4) ← take_value c3
    ok (some (record { user = key; seq = seq }, value), c4)
