-- ===== src/Engine/Events.antt =====
-- What happens to a database, one holder of a lock after the other: the steps of which `set`, `transaction`,
-- `snapshot`, `flush` and the background task are made up (transaction/src/oracle.rs, storage/src/lib.rs),
-- in any order. A list of events is one interleaving of the tasks.
pub mod Sound
pub mod Refines
pub mod Pinned
pub mod Operations
pub mod Opened
use lowdb.Prelude.{
  ℕ, ◌+◌, ◌<◌, ◌≡◌, ◌^◌, ◌≤◌, Bool, true, false, Option, none, some, List, [], ◌∷◌, ◌++◌, ◌&&◌, not,
  length, if◌then◌else◌,
}
use lowdb.Prelude.Bytes.{Bytes}
use lowdb.Common.Key.{Key}
use lowdb.Common.Value.{Value}
use lowdb.Common.Error.{DbResult, ok, err}
use lowdb.Env.{Env}
use lowdb.Memtable.SkipList.{Rng}
use lowdb.Memtable.Table.{MemTable}
use lowdb.Wal.{tx_begin}
use lowdb.Wal.Writer.{append, append_batch_sync}
use lowdb.Storage.{State}
use lowdb.Storage.Levels.{Dir, Layers, Storage, force_freeze, flush_oldest}
use lowdb.Storage.Levels.Flush.{IsFlushable, table_file}
use lowdb.Transaction.Oracle
use lowdb.Transaction.Oracle.{Oracle, conflicts, versions, next_tx_id}
use lowdb.Transaction.Commits.{Commits}
use lowdb.Engine.{Db}

-- A commit with its transaction, its snapshot and its write set; the begin and the end of a snapshot;
-- drawing the number of a transaction; freezing the active table; flushing the oldest frozen one.
pub data Event : Type 0 where
  commits : ℕ → Option ℕ → List (Bytes × Value) → Event
  begins : Event
  ends : ℕ → Event
  numbers : Event
  freezes : Event
  flushes : Event

abbrev pub is_ok : {A : Type 0} → DbResult A → Bool
is_ok (ok a) = true
is_ok (err e) = false

module _ (env : Env) where
  -- The begin record and the batch reach the log.
  unfoldable pub enters : ℕ → List (Key × Value) → State env → Bool
  enters tx_id kvs s =
      let (begun, w) = append env (tx_begin tx_id) s.wal in
      is_ok begun && is_ok (append_batch_sync env tx_id kvs w).0

  module _ (dir : Dir env) (rng : Rng) where
    unfoldable pub apply : Event → Db env → Db env
    apply (commits tx_id read_ts buffer) db =
        let (r, (oracle, active)) =
          Oracle.commit env tx_id read_ts buffer db.oracle db.inner.state.active in
        record {
          inner = record db.inner { state = record db.inner.state { active = active } };
          oracle = oracle;
        }
    apply begins db = record db { oracle = (Oracle.begin db.oracle).1 }
    apply (ends read_ts) db = record db { oracle = Oracle.end read_ts db.oracle }
    apply numbers db = record db { oracle = (next_tx_id db.oracle).1 }
    apply freezes db = record db { inner = (force_freeze env dir rng db.inner).1 }
    apply flushes db = record db { inner = (flush_oldest env dir rng db.inner).1 }

    unfoldable pub run : List Event → Db env → Db env
    run [] db = db
    run (e ∷ es) db = run es (apply e db)

    -- The commits behind an event. A commit whose write fails only at its last record is one of them,
    -- although its caller gets an error.
    unfoldable pub note : Event → Db env → Commits → Commits
    note (commits tx_id read_ts buffer) db h =
        let n = db.oracle.next_seq in
        if not (conflicts db.oracle read_ts buffer)
          && enters tx_id (versions n buffer) db.inner.state.active
        then (n, buffer) ∷ h
        else h
    note begins db h = h
    note (ends read_ts) db h = h
    note numbers db h = h
    note freezes db h = h
    note flushes db h = h

    unfoldable pub notes : List Event → Db env → Commits → Commits
    notes [] db h = h
    notes (e ∷ es) db h = notes es (apply e db) (note e db h)

    -- When an event may happen: the sequence numbers do not run out, and a frozen table can be flushed,
    -- with no version above `low`.
    abbrev pub Allowed : ℕ → Event → Db env → Type 0
    Allowed low (commits tx_id read_ts buffer) db = db.oracle.next_seq + 1 < 2 ^ 64
    Allowed low begins db = Unit
    Allowed low (ends read_ts) db = Unit
    Allowed low numbers db = Unit
    Allowed low freezes db = Unit
    Allowed low flushes db =
        (mts : List MemTable) (mt : MemTable)
        → db.inner.state.frozen ≡ mts ++ mt ∷ []
        → IsFlushable env mt (dir.create_table db.inner.state.storage.id) low
          × (length (table_file env (dir.create_table db.inner.state.storage.id) mt) < 2 ^ 64)

    abbrev pub AllAllowed : ℕ → List Event → Db env → Type 0
    AllAllowed low [] db = Unit
    AllAllowed low (e ∷ es) db = Allowed low e db × AllAllowed low es (apply e db)
