-- ===== src/Engine.antt =====
-- engine/src/lib.rs. A database is its storage and its oracle; the task that flushes in the background
-- is left out, and a call of `flush` does its steps. The directory that `open` reads is the files of the
-- logs and those of the tables.
pub mod Reads
pub mod Events
pub mod Restart
pub mod Examples
use lowdb.Prelude.{ℕ, ◌+◌, ◌%◌, ◌^◌, Option, none, some, List, [], ◌∷◌, max, length, suc}
use lowdb.Prelude.Bytes.{Bytes}
use lowdb.Common.Value
use lowdb.Common.Value.{Value}
use lowdb.Common.Error.{DbResult, ok, err, discard, ◌>>=◌}
use lowdb.Env.{Env}
use lowdb.Memtable.SkipList.{Rng}
use lowdb.Storage.Disk.{load}
use lowdb.Storage.Levels.{Dir, Storage, new_storage, flush_frozen, begin_shutdown, get_snap}
use lowdb.Storage.LogDir.{Files, next_wal_id, restore}
use lowdb.Transaction.Oracle
use lowdb.Transaction.Oracle.{Oracle, next_tx_id, u64}
use lowdb.Transaction.Session.{Transaction, new_transaction, new_snapshot, commit_frozen, freeze}

module _ (env : Env) where
  pub record Db : Type 0 where
    pub inner : Storage env
    pub oracle : Oracle

  unfoldable pub transaction : Db → Transaction × Db
  transaction db =
      let (tx, oracle) = new_transaction db.oracle in (tx, record db { oracle = oracle })

  unfoldable pub snapshot : Db → ℕ × Db
  snapshot db =
      let (read_ts, oracle) = new_snapshot db.oracle in (read_ts, record db { oracle = oracle })

  unfoldable pub get : Db → Bytes → DbResult (Option Bytes)
  get db key = get_snap env db.inner.state key db.oracle.visible

  module _ (dir : Dir env) (rng : Rng) where
    unfoldable pub open_db : (ℕ → Bytes) → Files → Files → DbResult Db
    open_db show wal_dir tables_dir = do
      restored ← restore env show rng wal_dir
      storage ← load env tables_dir
      inner ← new_storage env dir rng (next_wal_id env wal_dir) storage restored.tables
      let max_seq = max storage.max_seq restored.max_seq
      ok (record {
        inner = inner;
        oracle = Oracle.new (u64 (max_seq + 1)) (u64 (restored.max_tx_id + 1));
      })

    unfoldable pub set : Bytes → Bytes → Db → DbResult (Unit {0}) × Db
    set key value db =
        let (tx_id, oracle) = next_tx_id db.oracle in
        let (r, (oracle, inner)) =
          commit_frozen env dir rng tx_id none ((key, Value.set value) ∷ []) oracle db.inner in
        (discard r, record { inner = inner; oracle = oracle })

    unfoldable pub flush : Db → DbResult (Unit {0}) × Db
    flush db =
        let (r, inner) = freeze env dir rng db.inner in
        let (flushed, inner') = flush_frozen env dir rng (suc (length inner.state.frozen)) inner in
        elim r [
          | err e ↦ (err e, record db { inner = inner })
          | ok _ ↦ (flushed, record db { inner = inner' })
        ]

    unfoldable pub close : Db → DbResult (Unit {0}) × Db
    close db = let (r, db) = flush db in (r, record db { inner = begin_shutdown env db.inner })
