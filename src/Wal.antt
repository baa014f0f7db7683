-- ===== src/Wal.antt =====
-- wal/src/lib.rs: the commands of the write-ahead log and the bytes that begin their records.
pub mod Writer
pub mod Reader
pub mod Examples
use lowdb.Prelude.{ℕ, List}
use lowdb.Common.Key.{Key}
use lowdb.Common.Value.{Value}

pub data WalCmd : Type 0 where
  tx_begin : ℕ → WalCmd
  tx_commit : ℕ → WalCmd
  op : ℕ → Key → Value → WalCmd
  batch : ℕ → List (Key × Value) → WalCmd

abbrev pub tx_begin_cmd : ℕ
tx_begin_cmd = 1

abbrev pub tx_commit_cmd : ℕ
tx_commit_cmd = 2

abbrev pub op_cmd : ℕ
op_cmd = 3

abbrev pub batch_cmd : ℕ
batch_cmd = 4
