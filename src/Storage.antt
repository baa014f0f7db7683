-- ===== src/Storage.antt =====
-- storage/src/lib.rs and storage/src/state.rs: the part of the state that a write changes, the log and
-- the memory table, and `Storage::set_batch`.
pub mod Disk
pub mod Levels
pub mod LogDir
pub mod Restore
pub mod Recovery
pub mod Success
pub mod Examples
use lowdb.Prelude.{ℕ, List, [], ◌∷◌}
use lowdb.Common.Key.{Key}
use lowdb.Common.Value.{Value}
use lowdb.Common.Error.{DbResult, ok, err}
use lowdb.Env.{Env}
use lowdb.Wal.{tx_begin, tx_commit}
use lowdb.Wal.Writer.{append, append_batch_sync}
use lowdb.Memtable.Table.{MemTable, put_all}

module _ (env : Env) where
  pub record State : Type 0 where
    pub wal : env.BufWriter
    pub mem_table : MemTable

  -- The entries are in the memory table when the commit is written, whether that succeeds or not.
  unfoldable pub set_batch : ℕ → List (Key × Value) → State → DbResult (Unit {0}) × State
  set_batch tx_id kvs s =
      let (begun, w) = append env (tx_begin tx_id) s.wal in
      elim begun [
        | err e ↦ (err e, record s { wal = w })
        | ok _ ↦
            let (written, w') = append_batch_sync env tx_id kvs w in
            elim written [
              | err e ↦ (err e, record s { wal = w' })
              | ok _ ↦
                  let (committed, w'') = append env (tx_commit tx_id) w' in
                  (committed, record { wal = w''; mem_table = put_all kvs s.mem_table })
            ]
      ]

  -- Several batches, up to the first that fails.
  unfoldable pub set_batches : List (ℕ × List (Key × Value)) → State → DbResult (Unit {0}) × State
  set_batches [] s = (ok tt, s)
  set_batches ((tx_id, kvs) ∷ bs) s =
      let (r, s') = set_batch tx_id kvs s in
      elim r [ err e ↦ (err e, s') | ok _ ↦ set_batches bs s' ]
