-- ===== src/Storage/Examples.antt =====
-- Tests and applications of the theorems on writes and recovery.
use lowdb.Prelude.{ℕ, suc, ◌≡◌, refl, some, List, [], ◌∷◌, ◌++◌, length, All, arith}
use lowdb.Prelude.Bytes.{Bytes}
use lowdb.Common.Key.{Key}
use lowdb.Common.Value.{set, delete}
use lowdb.Common.Error.{ok, err, DbError}
use lowdb.Wal.{WalCmd, tx_begin, op}
use lowdb.Wal.Reader.{next}
use lowdb.Wal.Writer.Encoding.{encode_cmd}
use lowdb.Storage.Restore.Torn.{replay_log_torn}
use lowdb.Storage.Restore.Fuel.{replay_log_enough}
use lowdb.Env.Memory.{memory}
use lowdb.Wal.Writer.Success.{IsReliable}
use lowdb.Memtable.SkipList.{Rng}
use lowdb.Memtable.Table
use lowdb.Memtable.Table.{MemTable}
use lowdb.Storage.{State, set_batches}
use lowdb.Storage.Success.{FitsBatch, set_batches_succeeds}
use lowdb.Storage.Restore.{Restored, Replay, replay, replay_log, restore_tables}
use lowdb.Storage.Restore.Log.{encode_cmds, apply_cmds}
use lowdb.Storage.Restore.Committed.{Batch, Tail, uncommitted, tail_commands}
use lowdb.Storage.Recovery.{restore-set_batches}

abbrev start : Rng
start = record { cell = 0; seed = 1 }

abbrev new_state : State memory
new_state = record { wal = ([], []); mem_table = Table.new 0 start }

abbrev key : ℕ → ℕ → Key
key user seq = record { user = user ∷ []; seq = seq }

abbrev batches : List Batch
batches =
    (7, (key 97 1, set (120 ∷ [])) ∷ (key 98 1, set (121 ∷ [])) ∷ [])
    ∷ (8, (key 97 2, delete) ∷ [])
    ∷ []

abbrev lost : Tail
lost = uncommitted 9 ((key 98 3, delete) ∷ [])

reliable : IsReliable memory
reliable = record { writes = λ bs w. refl; flushes = λ w. refl }

batches-Fits : All FitsBatch batches
batches-Fits = (
  (omega arith, ((omega arith, omega arith), ((omega arith, omega arith), tt))),
  ((omega arith, ((omega arith, tt), tt)), tt),
)

set_batches_succeeds_example : (set_batches memory batches new_state).0 ≡ ok tt
set_batches_succeeds_example = set_batches_succeeds memory reliable batches new_state batches-Fits

restore-set_batches_example :
    (out : Restored) × (table : MemTable) × (restore_tables memory start (
        record {
          id = 48 ∷ [];
          unread =
              (set_batches memory batches new_state).1.wal.0 ++ encode_cmds (tail_commands lost);
        }
        ∷ [])
      ≡ ok out)
    × (out.tables ≡ table ∷ [])
    × (Table.iter table ≡ Table.iter (set_batches memory batches new_state).1.mem_table)
restore-set_batches_example =
    restore-set_batches memory start batches lost new_state (48 ∷ []) 0
      (
        (
          omega arith,
          omega arith,
          (
            (omega arith, refl, omega arith, (omega arith, omega arith, refl)),
            ((omega arith, refl, omega arith, (omega arith, omega arith, refl)), tt),
          ),
        ),
        ((omega arith, omega arith, ((omega arith, refl, omega arith, tt), tt)), tt),
      )
      (unfold tail_commands in
        (omega arith, ((omega arith, omega arith, ((omega arith, refl, omega arith, tt), tt)), tt)))
      refl refl refl refl (set_batches_succeeds memory reliable batches new_state batches-Fits)

abbrev fresh : Replay
fresh = record { table = Table.new 0 start; txs = []; max_seq = 0; max_tx_id = 0 }

encode_begin : encode_cmd (tx_begin 9) ≡ (1 ∷ 0 ∷ 0 ∷ 0 ∷ 0 ∷ 0 ∷ 0 ∷ 0 ∷ []) ++ 9 ∷ []
unfolding encode_cmd lowdb.Prelude.Bytes.to_be
encode_begin = refl

abbrev stray_cmds : List WalCmd
stray_cmds = op 5 (key 97 1) delete ∷ []

-- the record of a begin without its last byte
abbrev cut : Bytes
cut = 1 ∷ 0 ∷ 0 ∷ 0 ∷ 0 ∷ 0 ∷ 0 ∷ 0 ∷ []

stray : apply_cmds start stray_cmds fresh ≡ ok fresh
unfolding apply_cmds lowdb.Storage.Restore.apply_cmd lowdb.Prelude.Assoc.get
stray = refl

replay_log_torn_example :
    (e : DbError) × (next memory cut ≡ err e)
    × (replay memory start
          (suc (length (encode_cmds stray_cmds ++ cut)))
          (encode_cmds stray_cmds ++ cut)
          fresh
        ≡ some (err e))
    × (replay_log memory start (encode_cmds stray_cmds ++ cut) fresh ≡ err e)
replay_log_torn_example =
    replay_log_torn memory start stray_cmds fresh fresh (tx_begin 9) 1 9
      (0 ∷ 0 ∷ 0 ∷ 0 ∷ 0 ∷ 0 ∷ 0 ∷ []) [] ((omega arith, (omega arith, refl, omega arith, tt)), tt)
      stray (omega arith) encode_begin

replay_log_enough_example :
    replay memory start 9 (1 ∷ 2 ∷ []) fresh ≡ some (replay_log memory start (1 ∷ 2 ∷ []) fresh)
replay_log_enough_example = replay_log_enough memory start 9 (1 ∷ 2 ∷ []) fresh (omega arith)
