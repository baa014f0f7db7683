-- ===== src/Sstable/Scan/Table.antt =====
-- sstable/src/scan/table.rs. The reader of a scan is the bytes that it has not read; seeking back to where
-- it was before a read is keeping those.
pub mod Yields
use lowdb.Prelude.{ℕ, ◌+◌, ◌-◌, Option, none, some, length, drop, ltb, leb, ◌==◌, if◌then◌else◌}
use lowdb.Prelude.Bytes.{Bytes}
use lowdb.Common.Key
use lowdb.Common.Key.{Key}
use lowdb.Common.Value
use lowdb.Common.Value.{Value}
use lowdb.Common.Error.{DbResult, ok, err, invalid_state, ◌>>=◌}
use lowdb.Env.{Env}
use lowdb.Sstable.Cursor.{block_header}
use lowdb.Sstable.Footer.{read_footer, footer_len}
use lowdb.Sstable.Index.{stream_key, stream_value}

pub record TableScan : Type 0 where
  pub r : Bytes
  pub block_remaining : ℕ
  pub remaining : ℕ

-- `checked_sub` with the error of `ok_or`
abbrev pub checked_sub : ℕ → ℕ → DbResult ℕ
checked_sub a b = if leb b a then ok (a - b) else err invalid_state

-- `checked_sub` and `u16::try_from`, with the error of `ok_or`
abbrev left_in_block : ℕ → ℕ → DbResult ℕ
left_in_block a b =
    if leb b a
    then (if ltb (a - b) 65536 then ok (a - b) else err invalid_state)
    else err invalid_state

module _ (env : Env) where
  unfoldable pub open_scan : Bytes → DbResult TableScan
  open_scan file = if ltb (length file) footer_len then err invalid_state else do
    (footer, _) ← read_footer env (drop (length file - footer_len) file)
    ok (record { r = file; block_remaining = 0; remaining = footer.bloom_off })

  unfoldable pub check_block : TableScan → DbResult TableScan
  check_block s = do
    (sum, r) ← env.read_uint 4 s.r
    (len, r) ← env.read_uint 2 r
    remaining ← checked_sub s.remaining block_header
    (buf, _) ← env.read_exact len r
    if env.crc32 buf == sum
        then ok (record { r = r; block_remaining = len; remaining = remaining })
        else err invalid_state

  -- the end of `next`, inside a block
  unfoldable pub scan_entry : TableScan → DbResult (Option (Key × Value) × TableScan)
  scan_entry s = do
    (key, r) ← stream_key env s.r
    (value, r) ← stream_value env r
    let used = Key.disk_size key + Value.disk_size value
    block_remaining ← left_in_block s.block_remaining used
    remaining ← checked_sub s.remaining used
    ok (
      some (key, value),
      record { r = r; block_remaining = block_remaining; remaining = remaining },
    )

  -- `next` behind `check_block`
  unfoldable pub scan_checked : TableScan → DbResult (Option (Key × Value) × TableScan)
  scan_checked s =
      if s.block_remaining == 0
      then (if s.remaining == 0 then ok (none, s) else err invalid_state)
      else scan_entry s

  unfoldable pub scan_next : TableScan → DbResult (Option (Key × Value) × TableScan)
  scan_next s =
      if s.remaining == 0
      then ok (none, s)
      else if s.block_remaining == 0
      then check_block s >>= scan_checked
      else scan_entry s
