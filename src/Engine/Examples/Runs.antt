-- ===== src/Engine/Examples/Runs.antt =====
-- Applications of the theorems on events to a run of a small database.
use lowdb.Prelude.{
  ℕ, ◌+◌, ◌<◌, ◌≤◌, ◌^◌, ◌≡◌, refl, ap, sym, subst, ◌∙◌, Option, none, some, List, [], ◌∷◌, ◌++◌,
  All, arith, max, not,
}
use lowdb.Prelude.Bytes.{Bytes}
use lowdb.Common.Value.{Value, set}
use lowdb.Common.Error.{DbResult, ok, err}
use lowdb.Env.Memory.{memory}
use lowdb.Memtable.Table
use lowdb.Memtable.Table.{MemTable}
use lowdb.Storage.{State, set_batches}
use lowdb.Memtable.Table.Below.{IsBelow}
use lowdb.Storage.Disk.{DiskStorage, load}
use lowdb.Storage.Disk.Loaded.{AllTables}
use lowdb.Storage.Levels.{Storage, get_snap, split_last}
use lowdb.Storage.Levels.Placed.{split_last-append}
use lowdb.Storage.LogDir.{Files, restore}
use lowdb.Storage.Restore.{Restored}
use lowdb.Transaction.Oracle
use lowdb.Transaction.Commits.{read}
use lowdb.Transaction.Session
use lowdb.Transaction.Session.{Transaction}
use lowdb.Engine
use lowdb.Engine.{Db, open_db}
use lowdb.Engine.Events.{
  Event, commits, begins, ends, numbers, freezes, flushes, apply, run, notes, AllAllowed,
}
use lowdb.Engine.Events.Sound.{IsSound}
use lowdb.Engine.Events.Refines.{get_snap-run}
use lowdb.Engine.Events.Pinned.{pin, held, keeps}
use lowdb.Engine.Events.Pinned.Reads.{get-repeats}
use lowdb.Engine.Events.Opened.{run-IsSound_opened}
use lowdb.Engine.Events.Operations.{
  freezes_if, write_events, commit_events, db_of, Flushed, operations-run,
}
use lowdb.Engine.Examples.{dir, rng, key, old, db, old-IsValid, old_below, old-IsFlushable, short}

-- The oldest table is flushed, a value is written, and the active table is frozen.
abbrev events : List Event
events = flushes ∷ begins ∷ commits 7 none ((97 ∷ [], set (122 ∷ [])) ∷ []) ∷ freezes ∷ []

sound : IsSound memory db
unfolding Oracle.new
sound = record {
  active = (old-IsValid, old_below);
  frozen = ((old-IsValid, old_below), tt);
  visible = omega arith;
}

only_old : (mts : List MemTable) (mt : MemTable) → old ∷ [] ≡ mts ++ mt ∷ [] → mt ≡ old
unfolding split_last
only_old mts mt e =
    let last : some (mts, mt) ≡ split_last (old ∷ []) =
      sym (split_last-append mts mt) ∙ ap split_last (sym e) in
    cc

next_small :
    (apply memory dir rng begins (apply memory dir rng flushes db)).oracle.next_seq + 1 < 2 ^ 64
unfolding lowdb.Engine.Events.apply lowdb.Transaction.Oracle.new lowdb.Transaction.Oracle.begin
next_small = omega arith

allowed : AllAllowed memory dir rng 5 events db
allowed =
    ((λ mts mt e. rw (only_old mts mt e) (old-IsFlushable, short)), (tt, (next_small, (tt, tt))))

get_snap-run_example :
    get_snap memory (run memory dir rng events db).inner.state (97 ∷ []) 5
    ≡ read
        (notes memory dir rng events db [])
        (97 ∷ [])
        5
        (get_snap memory db.inner.state (97 ∷ []) 5)
get_snap-run_example =
    get_snap-run memory dir rng 5 events db (97 ∷ []) 5 allowed sound (omega arith)

-- What this is: the value that the run has written.
value_read :
    read
      (notes memory dir rng events db [])
      (97 ∷ [])
      5
      (get_snap memory db.inner.state (97 ∷ []) 5)
    ≡ ok (some (122 ∷ []))
unfolding lowdb.Common.Error.try_u16 lowdb.Common.Key.cmp_str lowdb.Engine.Events.enters
    lowdb.Engine.Events.apply lowdb.Engine.Events.note lowdb.Engine.Events.notes
    lowdb.Transaction.Commits.written lowdb.Transaction.Commits.read lowdb.Transaction.Oracle.new
    lowdb.Transaction.Oracle.begin lowdb.Transaction.Oracle.conflicts
    lowdb.Transaction.Oracle.versions lowdb.Wal.Writer.◌>>◌ lowdb.Wal.Writer.lift
    lowdb.Wal.Writer.write_uint lowdb.Wal.Writer.append_tx_begin lowdb.Wal.Writer.append_value
    lowdb.Wal.Writer.append_key_value lowdb.Wal.Writer.append_pairs lowdb.Wal.Writer.append_batch
    lowdb.Wal.Writer.append_cmd lowdb.Wal.Writer.append lowdb.Wal.Writer.append_batch_sync
value_read = refl

abbrev reader : Transaction
reader = record { tx_id = 1; read_ts = 3; buffer = [] }

before : 3 < db.oracle.next_seq
unfolding Oracle.new
before = omega arith

get-repeats_example :
    let later =
      held memory (keeps memory dir rng events db (pin memory db)) (run memory dir rng events db) in
    (Session.get memory later reader (97 ∷ []) ≡ Session.get memory db.inner.state reader (97 ∷ []))
    × (Session.get_at memory later 3 (97 ∷ []) ≡ Session.get_at memory db.inner.state 3 (97 ∷ []))
get-repeats_example = get-repeats memory dir rng 5 events db reader (97 ∷ []) allowed sound before

operations-run_example :
    ((Engine.set memory dir rng (97 ∷ []) (122 ∷ []) db).1
      ≡ run memory dir rng
          (numbers
            ∷ write_events memory dir rng db.oracle.tx_id none
                ((97 ∷ [], set (122 ∷ [])) ∷ [])
                (apply memory dir rng numbers db))
          db)
    × ((Engine.transaction memory db).1 ≡ run memory dir rng (begins ∷ numbers ∷ []) db)
    × ((Engine.transaction memory db).0
        ≡ record { tx_id = db.oracle.tx_id; read_ts = db.oracle.visible; buffer = [] })
    × (Engine.snapshot memory db ≡ (db.oracle.visible, run memory dir rng (begins ∷ []) db))
    × Flushed memory dir rng
        (Engine.flush memory dir rng db)
        (run memory dir rng (freezes_if (not (Table.is_empty db.inner.state.active.mem_table))) db)
    × (db_of memory dir rng (Session.commit_transaction memory dir rng reader db.oracle db.inner).1
        ≡ run memory dir rng (commit_events memory dir rng reader db) db)
    × (record db { oracle = Session.drop_at 3 db.oracle } ≡ run memory dir rng (ends 3 ∷ []) db)
operations-run_example = operations-run memory dir rng db (97 ∷ []) (122 ∷ []) reader 3

-- A directory with one log, of one committed transaction.
abbrev logged : State memory
logged =
    (set_batches memory ((7, (key 97 1, set (120 ∷ [])) ∷ []) ∷ [])
      (record { wal = ([], []); mem_table = Table.new 0 rng })).1

abbrev wal_dir : Files
wal_dir = (49 ∷ [], logged.wal.0) ∷ []

abbrev show : ℕ → Bytes
show id = (48 + id) ∷ []

abbrev or_empty : DbResult Restored → Restored
or_empty (ok r) = r
or_empty (err e) = record { tables = []; max_seq = 0; max_tx_id = 0 }

abbrev restored : Restored
restored = or_empty (restore memory show rng wal_dir)

restores : restore memory show rng wal_dir ≡ ok restored
unfolding lowdb.Common.Error.try_u16 lowdb.Common.Key.cmp_str lowdb.Prelude.Assoc.get
    lowdb.Prelude.Assoc.insert lowdb.Prelude.Bytes.to_be lowdb.Prelude.Bytes.from_be
    lowdb.Storage.set_batch lowdb.Storage.set_batches lowdb.Storage.LogDir.insert_id
    lowdb.Storage.LogDir.sort_ids lowdb.Storage.LogDir.reverse lowdb.Storage.LogDir.find_file
    lowdb.Storage.LogDir.parsed_ids lowdb.Storage.LogDir.wal_ids lowdb.Storage.LogDir.open_reader
    lowdb.Storage.LogDir.open_readers lowdb.Storage.LogDir.load_wals lowdb.Storage.LogDir.restore
    lowdb.Storage.Restore.apply_cmd lowdb.Storage.Restore.replay lowdb.Storage.Restore.replay_log
    lowdb.Storage.Restore.restore_from lowdb.Storage.Restore.restore_tables
    lowdb.Wal.Reader.read_str lowdb.Wal.Reader.read_key lowdb.Wal.Reader.read_value
    lowdb.Wal.Reader.read_key_value lowdb.Wal.Reader.read_pairs lowdb.Wal.Reader.read_cmd
    lowdb.Wal.Reader.next lowdb.Wal.Writer.◌>>◌ lowdb.Wal.Writer.lift lowdb.Wal.Writer.write_uint
    lowdb.Wal.Writer.append_tx_begin lowdb.Wal.Writer.append_tx_commit lowdb.Wal.Writer.append_value
    lowdb.Wal.Writer.append_key_value lowdb.Wal.Writer.append_pairs lowdb.Wal.Writer.append_batch
    lowdb.Wal.Writer.append_cmd lowdb.Wal.Writer.append lowdb.Wal.Writer.append_batch_sync
restores = refl

abbrev disk : DiskStorage
disk = record { id = 1; max_seq = 0; tables = [] }

loads : load memory [] ≡ ok disk
unfolding lowdb.Storage.Disk.sort_files lowdb.Storage.Disk.max_id lowdb.Storage.Disk.named_files
    lowdb.Storage.Disk.load_files lowdb.Storage.Disk.load
loads = refl

abbrev or_db : DbResult (Db memory) → Db memory
or_db (ok d) = d
or_db (err e) = db

abbrev opened : Db memory
opened = or_db (open_db memory dir rng show wal_dir [])

opens : open_db memory dir rng show wal_dir [] ≡ ok opened
unfolding lowdb.Common.Error.try_u16 lowdb.Common.Key.cmp_str lowdb.Engine.open_db
    lowdb.Prelude.Assoc.get lowdb.Prelude.Assoc.insert lowdb.Prelude.Bytes.to_be
    lowdb.Prelude.Bytes.from_be lowdb.Storage.set_batch lowdb.Storage.set_batches
    lowdb.Storage.Disk.sort_files lowdb.Storage.Disk.named_files lowdb.Storage.Disk.load_files
    lowdb.Storage.Disk.load lowdb.Storage.Levels.new_writer lowdb.Storage.Levels.new_state
    lowdb.Storage.Levels.new_storage lowdb.Storage.LogDir.insert_id lowdb.Storage.LogDir.sort_ids
    lowdb.Storage.LogDir.reverse lowdb.Storage.LogDir.find_file lowdb.Storage.LogDir.parsed_ids
    lowdb.Storage.LogDir.wal_ids lowdb.Storage.LogDir.open_reader lowdb.Storage.LogDir.open_readers
    lowdb.Storage.LogDir.load_wals lowdb.Storage.LogDir.restore lowdb.Storage.Restore.apply_cmd
    lowdb.Storage.Restore.replay lowdb.Storage.Restore.replay_log lowdb.Storage.Restore.restore_from
    lowdb.Storage.Restore.restore_tables lowdb.Wal.Reader.read_str lowdb.Wal.Reader.read_key
    lowdb.Wal.Reader.read_value lowdb.Wal.Reader.read_key_value lowdb.Wal.Reader.read_pairs
    lowdb.Wal.Reader.read_cmd lowdb.Wal.Reader.next lowdb.Wal.Writer.◌>>◌ lowdb.Wal.Writer.lift
    lowdb.Wal.Writer.write_uint lowdb.Wal.Writer.append_tx_begin lowdb.Wal.Writer.append_tx_commit
    lowdb.Wal.Writer.append_value lowdb.Wal.Writer.append_key_value lowdb.Wal.Writer.append_pairs
    lowdb.Wal.Writer.append_batch lowdb.Wal.Writer.append_cmd lowdb.Wal.Writer.append
    lowdb.Wal.Writer.append_batch_sync
opens = refl

not_last : max disk.max_seq restored.max_seq + 2 < 2 ^ 64
unfolding lowdb.Common.Error.try_u16 lowdb.Common.Key.cmp_str lowdb.Prelude.Assoc.get
    lowdb.Prelude.Assoc.insert lowdb.Prelude.Bytes.to_be lowdb.Prelude.Bytes.from_be
    lowdb.Storage.set_batch lowdb.Storage.set_batches lowdb.Storage.LogDir.insert_id
    lowdb.Storage.LogDir.sort_ids lowdb.Storage.LogDir.reverse lowdb.Storage.LogDir.find_file
    lowdb.Storage.LogDir.parsed_ids lowdb.Storage.LogDir.wal_ids lowdb.Storage.LogDir.open_reader
    lowdb.Storage.LogDir.open_readers lowdb.Storage.LogDir.load_wals lowdb.Storage.LogDir.restore
    lowdb.Storage.Restore.apply_cmd lowdb.Storage.Restore.replay lowdb.Storage.Restore.replay_log
    lowdb.Storage.Restore.restore_from lowdb.Storage.Restore.restore_tables
    lowdb.Wal.Reader.read_str lowdb.Wal.Reader.read_key lowdb.Wal.Reader.read_value
    lowdb.Wal.Reader.read_key_value lowdb.Wal.Reader.read_pairs lowdb.Wal.Reader.read_cmd
    lowdb.Wal.Reader.next lowdb.Wal.Writer.◌>>◌ lowdb.Wal.Writer.lift lowdb.Wal.Writer.write_uint
    lowdb.Wal.Writer.append_tx_begin lowdb.Wal.Writer.append_tx_commit lowdb.Wal.Writer.append_value
    lowdb.Wal.Writer.append_key_value lowdb.Wal.Writer.append_pairs lowdb.Wal.Writer.append_batch
    lowdb.Wal.Writer.append_cmd lowdb.Wal.Writer.append lowdb.Wal.Writer.append_batch_sync
not_last = omega arith

abbrev one_write : List Event
one_write = commits 9 none ((97 ∷ [], set (122 ∷ [])) ∷ []) ∷ []

one_allowed : AllAllowed memory dir rng 0 one_write opened
unfolding lowdb.Common.Error.try_u16 lowdb.Common.Key.cmp_str lowdb.Engine.open_db
    lowdb.Prelude.Assoc.get lowdb.Prelude.Assoc.insert lowdb.Prelude.Bytes.to_be
    lowdb.Prelude.Bytes.from_be lowdb.Storage.set_batch lowdb.Storage.set_batches
    lowdb.Storage.Disk.sort_files lowdb.Storage.Disk.named_files lowdb.Storage.Disk.load_files
    lowdb.Storage.Disk.load lowdb.Storage.Levels.new_writer lowdb.Storage.Levels.new_state
    lowdb.Storage.Levels.new_storage lowdb.Storage.LogDir.insert_id lowdb.Storage.LogDir.sort_ids
    lowdb.Storage.LogDir.reverse lowdb.Storage.LogDir.find_file lowdb.Storage.LogDir.parsed_ids
    lowdb.Storage.LogDir.wal_ids lowdb.Storage.LogDir.open_reader lowdb.Storage.LogDir.open_readers
    lowdb.Storage.LogDir.load_wals lowdb.Storage.LogDir.restore lowdb.Storage.Restore.apply_cmd
    lowdb.Storage.Restore.replay lowdb.Storage.Restore.replay_log lowdb.Storage.Restore.restore_from
    lowdb.Storage.Restore.restore_tables lowdb.Transaction.Oracle.new lowdb.Wal.Reader.read_str
    lowdb.Wal.Reader.read_key lowdb.Wal.Reader.read_value lowdb.Wal.Reader.read_key_value
    lowdb.Wal.Reader.read_pairs lowdb.Wal.Reader.read_cmd lowdb.Wal.Reader.next
    lowdb.Wal.Writer.◌>>◌ lowdb.Wal.Writer.lift lowdb.Wal.Writer.write_uint
    lowdb.Wal.Writer.append_tx_begin lowdb.Wal.Writer.append_tx_commit lowdb.Wal.Writer.append_value
    lowdb.Wal.Writer.append_key_value lowdb.Wal.Writer.append_pairs lowdb.Wal.Writer.append_batch
    lowdb.Wal.Writer.append_cmd lowdb.Wal.Writer.append lowdb.Wal.Writer.append_batch_sync
one_allowed = (omega arith, tt)

run-IsSound_opened_example :
    IsSound memory (run memory dir rng one_write opened)
    × All (IsBelow opened.oracle.visible) opened.inner.state.frozen
    × AllTables
        (λ t. t.meta.footer.largest_seq < opened.oracle.visible)
        opened.inner.state.storage.tables
    × All
        (λ (c : ℕ × List (Bytes × Value)). opened.oracle.visible < c.0)
        (notes memory dir rng one_write opened [])
run-IsSound_opened_example =
    run-IsSound_opened memory dir rng show wal_dir [] restored disk opened 0 one_write restores
      loads not_last opens one_allowed
