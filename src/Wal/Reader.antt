-- ===== src/Wal/Reader.antt =====
-- wal/src/reader.rs. A reader is the bytes that it has not read yet.
pub mod RoundTrip
pub mod Torn
pub mod Progress
use lowdb.Prelude.{ℕ, zero, suc, Option, none, some, List, [], ◌∷◌, ◌==◌, if◌then◌else◌}
use lowdb.Prelude.Bytes.{Bytes}
use lowdb.Common.Key.{Key}
use lowdb.Common.Value.{Value, set, delete}
use lowdb.Common.Error.{DbResult, ok, err, io, unexpected_eof, invalid_state, ◌>>=◌}
use lowdb.Env.{Env}
use lowdb.Wal.{
  WalCmd, tx_begin, tx_commit, op, batch, tx_begin_cmd, tx_commit_cmd, op_cmd, batch_cmd,
}

module _ (env : Env) where
  open env use {read_exact, read_uint, from_utf8_lossy}

  abbrev pub Read : Type 0 → Type 0
  Read A = Bytes → DbResult (A × Bytes)

  unfoldable pub read_str : ℕ → Read Bytes
  read_str len r = do (value, r) ← read_exact len r; ok (from_utf8_lossy value, r)

  unfoldable pub read_key : Read Key
  read_key r = do
    (len, r) ← read_uint 2 r
    (key, r) ← read_str len r
    (seq, r) ← read_uint 8 r
    ok (record { user = key; seq = seq }, r)

  unfoldable pub read_value : Read Value
  read_value r = do
    (len, r) ← read_uint 2 r
    if len == 0 then ok (delete, r) else do (value, r) ← read_str len r; ok (set value, r)

  unfoldable pub read_key_value : Read (Key × Value)
  read_key_value r = do (key, r) ← read_key r; (value, r) ← read_value r; ok ((key, value), r)

  -- the `for` loop of the batch
  unfoldable pub read_pairs : ℕ → Read (List (Key × Value))
  read_pairs zero r = ok ([], r)
  read_pairs (suc n) r = do (kv, r) ← read_key_value r; (kvs, r) ← read_pairs n r; ok (kv ∷ kvs, r)

  -- `match cmd` of `WalReader::next`
  unfoldable pub read_cmd : ℕ → Read (Option WalCmd)
  read_cmd cmd r =
      if cmd == tx_begin_cmd
      then (do (tx_id, r) ← read_uint 8 r; ok (some (tx_begin tx_id), r))
      else if cmd == tx_commit_cmd
      then (do (tx_id, r) ← read_uint 8 r; ok (some (tx_commit tx_id), r))
      else if cmd == op_cmd
      then (do
        (tx_id, r) ← read_uint 8 r
        (kv, r) ← read_key_value r
        ok (some (op tx_id kv.0 kv.1), r))
      else if cmd == batch_cmd
      then (do
        (len, r) ← read_uint 2 r
        (tx_id, r) ← read_uint 8 r
        (kvs, r) ← read_pairs len r
        ok (some (batch tx_id kvs), r))
      else err invalid_state

  -- At the end of the file, before a record begins, there is no further command.
  unfoldable pub next : Read (Option WalCmd)
  next r = elim (read_uint 1 r) [
    | ok (cmd, r') ↦ read_cmd cmd r'
    | err (io unexpected_eof) ↦ ok (none, r)
    | err e ↦ err e
  ]
