-- ===== src/Storage/Restore.antt =====
-- storage/src/wal.rs: `restore_tables`, which rebuilds the memory tables from the logs. A reader is its
-- id, which is the name of its file, and the bytes that it has not read. Each new table takes `rng` for
-- the state of the random generator.
pub mod Log
pub mod Committed
pub mod Fuel
pub mod Torn
pub mod Below
use lowdb.Prelude.{ℕ, zero, suc, max, Option, none, some, List, [], ◌∷◌, ◌++◌, length}
use lowdb.Prelude.Assoc
use lowdb.Prelude.Bytes.{Bytes}
use lowdb.Common.Key.{Key}
use lowdb.Common.Value.{Value}
use lowdb.Common.Error.{DbResult, ok, err, invalid_state, invalid_value, ◌>>=◌}
use lowdb.Env.{Env}
use lowdb.Wal.{WalCmd, tx_begin, tx_commit, op, batch}
use lowdb.Wal.Reader.{next}
use lowdb.Memtable.SkipList.{Rng}
use lowdb.Memtable.Table
use lowdb.Memtable.Table.{MemTable, put, put_all}

pub record WalReader : Type 0 where
  pub id : Bytes
  pub unread : Bytes

pub record Restored : Type 0 where
  pub tables : List MemTable
  pub max_seq : ℕ
  pub max_tx_id : ℕ

-- the variables of the loop over one log
pub record Replay : Type 0 where
  pub table : MemTable
  pub txs : List (ℕ × MemTable)
  pub max_seq : ℕ
  pub max_tx_id : ℕ

-- `max_seq = max_seq.max(key.1)` for each entry
unfoldable pub max_seq_of : List (Key × Value) → ℕ → ℕ
max_seq_of [] m = m
max_seq_of ((k, v) ∷ kvs) m = max_seq_of kvs (max m k.seq)

-- `match cmd`
unfoldable pub apply_cmd : Rng → WalCmd → Replay → DbResult Replay
unfolding max_seq_of
apply_cmd rng (tx_begin tx_id) p = elim (Assoc.get tx_id p.txs) [
  | none ↦ ok (record p {
    max_tx_id = max p.max_tx_id tx_id;
    txs = Assoc.insert tx_id (Table.new 0 rng) p.txs;
  })
  | some _ ↦ err invalid_state
]
apply_cmd rng (tx_commit tx_id) p = elim (Assoc.get tx_id p.txs) [
  | none ↦ err invalid_state
  | some values ↦
      ok (record p { txs = Assoc.remove tx_id p.txs; table = put_all (Table.iter values) p.table })
]
apply_cmd rng (op tx_id key value) p = elim (Assoc.get tx_id p.txs) [
  | none ↦ ok p
  | some values ↦ ok (record p {
    max_seq = max p.max_seq key.seq;
    txs = Assoc.insert tx_id (put key value values) p.txs;
  })
]
apply_cmd rng (batch tx_id kvs) p = elim (Assoc.get tx_id p.txs) [
  | none ↦ ok p
  | some values ↦ ok (record p {
    max_seq = max_seq_of kvs p.max_seq;
    txs = Assoc.insert tx_id (put_all kvs values) p.txs;
  })
]

module _ (env : Env) (rng : Rng) where
  -- `while let Some(cmd) = wal.next().await?`, or `none` where the rounds run out
  unfoldable pub replay : ℕ → Bytes → Replay → Option (DbResult Replay)
  replay zero r p = none
  replay (suc fuel) r p = elim (next env r) [
    | err e ↦ some (err e)
    | ok step ↦ elim step.0 [
      | none ↦ some (ok p)
      | some cmd ↦ elim (apply_cmd rng cmd p) [
        | err e ↦ some (err e)
        | ok p' ↦ replay fuel step.1 p'
      ]
    ]
  ]

  -- Each command is at least one byte, so the rounds do not run out.
  unfoldable pub replay_log : Bytes → Replay → DbResult Replay
  replay_log r p = elim (replay (suc (length r)) r p) [
    | none ↦ err invalid_state
    | some done ↦ done
  ]

  -- `for wal in wals.iter_mut()`
  unfoldable pub restore_from : List WalReader → Restored → DbResult Restored
  restore_from [] out = ok out
  restore_from (wal ∷ wals) out = elim (env.parse_u64 wal.id) [
    | none ↦ err invalid_value
    | some id ↦
        replay_log wal.unread (record {
          table = Table.new id rng;
          txs = [];
          max_seq = out.max_seq;
          max_tx_id = out.max_tx_id;
        })
        >>= λ p. restore_from wals (record {
          tables = out.tables ++ p.table ∷ [];
          max_seq = p.max_seq;
          max_tx_id = p.max_tx_id;
        })
  ]

  unfoldable pub restore_tables : List WalReader → DbResult Restored
  restore_tables wals = restore_from wals (record { tables = []; max_seq = 0; max_tx_id = 0 })
