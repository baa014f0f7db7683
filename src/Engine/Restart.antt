-- ===== src/Engine/Restart.antt =====
-- Opening a database again behind a crash (`DB::open`, engine/src/lib.rs).
pub mod OneLog
use lowdb.Prelude.{
  ℕ, ◌+◌, ◌%◌, ◌≤◌, ◌<◌, ◌^◌, ◌≡◌, refl, ap, sym, ◌∙◌, max, Option, none, some, List, [], ◌∷◌, ◌++◌,
  All, All-imp, arith, false,
}
use lowdb.Prelude.Bytes.{Bytes}
use lowdb.Common.Key.{cmp}
use lowdb.Common.Key.Order.{cmp_str_refl}
use lowdb.Common.Lookup.{Lookup, found, deleted, absent}
use lowdb.Common.Error.{ok}
use lowdb.Env.{Env}
use lowdb.Wal.Reader.RoundTrip.{Readable}
use lowdb.Memtable.SkipList.{Rng}
use lowdb.Memtable.Sorted.{lookup_entry}
use lowdb.Memtable.Table
use lowdb.Memtable.Table.{MemTable, u64_max}
use lowdb.Memtable.Table.Below.{IsBelow}
use lowdb.Memtable.Table.Reads.{IsValid, says, get_snap_lem, iter-new}
use lowdb.Storage.{State, set_batches}
use lowdb.Storage.Disk
use lowdb.Storage.Disk.{DiskStorage, load}
use lowdb.Storage.Levels
use lowdb.Storage.Levels.{Dir, Layers, Storage, get_snap, new_storage, new_state, new_writer}
use lowdb.Storage.Levels.Freeze.{new_absent}
use lowdb.Storage.LogDir.{
  Files, next_wal_id, restore, load_wals, wal_ids, parsed_ids, sort_ids, insert_id, open_readers,
  find_file, reverse, latest_id, last_or_zero,
}
use lowdb.Storage.Recovery.{IsReadable, restore-set_batches, set_batches-IsWritten}
use lowdb.Storage.Restore.{Restored}
use lowdb.Storage.Restore.Below.{restore_tables-Below}
use lowdb.Storage.Restore.Committed.{Batch, Tail, tail_commands}
use lowdb.Storage.Restore.Log.{encode_cmds}
use lowdb.Sstable.Table.Layout.{Entry}
use lowdb.Transaction.Oracle
use lowdb.Transaction.Oracle.{u64}
use lowdb.Engine.{Db, get, open_db}
use lowdb.Engine.Restart.OneLog.{
  value_of, no_tables, lookup_entry-all_seen, load-none, get_snap-active, get_snap-frozen,
  load_wals-one, next_wal_id-one,
}

module _ (env : Env) where
  open env use {stored, pending}

  module _ (dir : Dir env) (rng : Rng) where
    -- The storage that `open` makes when the next log opens.
    abbrev opened : env.BufWriter → ℕ → ℕ → Restored → Storage env
    opened wal n next r = record {
      state = record {
        active = record { wal = wal; mem_table = Table.new n rng };
        frozen = r.tables;
        storage = no_tables env;
      };
      wal_id = next;
      shutdown = false;
    }

    abbrev opened_db : env.BufWriter → ℕ → ℕ → Restored → Db env
    opened_db wal n next r = record {
      inner = opened wal n next r;
      oracle = Oracle.new (u64 (max 0 r.max_seq + 1)) (u64 (r.max_tx_id + 1));
    }

    new_state-some :
        (wal : Bytes × env.BufWriter) (tables : List MemTable) (disk : DiskStorage) (n : ℕ)
        → env.parse_u64 wal.0 ≡ some n
        → new_state env dir rng wal tables disk
          ≡ ok (record {
            active = record { wal = wal.1; mem_table = Table.new n rng };
            frozen = tables;
            storage = disk;
          })
    unfolding new_state
    new_state-some wal tables disk n p = rw (new_state, p) refl

    open_db-one :
        (show : ℕ → Bytes) (id n : ℕ) (content name : Bytes) (wal : env.BufWriter)
        (restored : Restored)
        → env.parse_u64 (show id) ≡ some id
        → restore env show rng ((show id, content) ∷ []) ≡ ok restored
        → dir.open_wal ((id + 1) % 2 ^ 64) ≡ ok (name, wal)
        → env.parse_u64 name ≡ some n
        → open_db env dir rng show ((show id, content) ∷ []) []
          ≡ ok (opened_db wal n (((id + 1) % 2 ^ 64 + 1) % 2 ^ 64) restored)
    unfolding open_db new_storage new_writer
    open_db-one show id n content name wal restored e r o p =
        let next = next_wal_id-one env (show id) id content e in
        rw
          (
            open_db,
            r,
            load-none env,
            next,
            new_storage,
            o,
            new_state-some (name, wal) restored.tables (no_tables env) n p,
          )
          refl

    -- The reads of the database that was opened are those of the table that was restored.
    get-opened :
        (wal : env.BufWriter) (n next : ℕ) (r : Restored) (t : MemTable) (key : Bytes)
        → r.tables ≡ t ∷ []
        → r.max_seq + 2 < 2 ^ 64
        → get env (opened_db wal n next r) key
          ≡ ok (value_of (Table.get_snap t key (r.max_seq + 1)))
    unfolding get Oracle.new
    get-opened wal n next r t key e small =
        let seen : u64 (max 0 r.max_seq + 1) ≡ r.max_seq + 1 = omega arith in
        rw (e, seen)
          (get_snap-frozen env (record { wal = wal; mem_table = Table.new n rng }) t key
            (r.max_seq + 1) (new_absent n rng key (r.max_seq + 1)))

    -- The table that is restored answers what the table before the crash does.
    restored_answers :
        (t t' : MemTable) (m : ℕ) (key : Bytes)
        → IsBelow (m + 1) t
        → IsValid t'
        → Table.iter t ≡ Table.iter t'
        → m + 2 < 2 ^ 64
        → Table.get_snap t key (m + 1) ≡ Table.get_snap t' key u64_max
    restored_answers t t' m key (valid, below) valid' e small =
        get_snap_lem t key (m + 1) valid
        ∙ ap says (
            lookup_entry-all_seen key (m + 1) u64_max (Table.iter t)
              (All-imp _ _ (λ x lt. omega arith) (Table.iter t) below)
              (All-imp _ _ (λ x lt. omega arith) (Table.iter t) below))
        ∙ ap (λ es. says (lookup_entry key u64_max es)) e
        ∙ sym (get_snap_lem t' key u64_max valid')

    -- What is in the directory of the logs behind a crash: the log with the batches, and with the records
    -- of one more transaction without its commit.
    abbrev pub left_behind : (ℕ → Bytes) → ℕ → List Batch → Tail → State env → Files
    left_behind show id bs tail s =
        (show id, stored (set_batches env bs s).1.wal ++ encode_cmds (tail_commands tail)) ∷ []

    restored_table :
        (show : ℕ → Bytes) (id : ℕ) (bs : List Batch) (tail : Tail) (s : State env)
        → All (IsReadable env) bs
        → All (Readable env) (tail_commands tail)
        → stored s.wal ≡ []
        → pending s.wal ≡ []
        → s.mem_table ≡ Table.new id rng
        → env.parse_u64 (show id) ≡ some id
        → (set_batches env bs s).0 ≡ ok tt
        → (restored : Restored) × (t : MemTable) × (restore env show rng
              (left_behind show id bs tail s)
            ≡ ok restored)
          × (restored.tables ≡ t ∷ [])
          × IsBelow (restored.max_seq + 1) t
          × (Table.iter t ≡ Table.iter (set_batches env bs s).1.mem_table)
    unfolding restore
    restored_table show id bs tail s hb ht empty synced fresh named h =
        let (out, t, run, tables, entries) =
          restore-set_batches env rng bs tail s (show id) id hb ht empty synced fresh named h in
        let files = stored (set_batches env bs s).1.wal ++ encode_cmds (tail_commands tail) in
        let (first, _) = rw tables at (restore_tables-Below env rng _ out run) in
        (out, t, rw (restore, load_wals-one env show id files named) run, tables, first, entries)

    -- A database that is opened again behind a crash reads what the storage read before: where batches were
    -- written to a new log and an empty memory table, each without an error, and the crash leaves the records
    -- of one more transaction without its commit behind them, `open` on that log and no tables succeeds, and
    -- `get` gives for every key what a `get` on the storage gave. The batches hold words in range, keys and
    -- values that are UTF-8 and fit their length fields, and no empty values; the name of the log is its
    -- number; the highest sequence number that restoring gives is not one of the last two; the next log opens,
    -- and its name is a number.
    pub get-open_db :
        (show : ℕ → Bytes) (id n : ℕ) (bs : List Batch) (tail : Tail) (s : State env) (name : Bytes)
        (wal : env.BufWriter)
        → All (IsReadable env) bs
        → All (Readable env) (tail_commands tail)
        → stored s.wal ≡ []
        → pending s.wal ≡ []
        → s.mem_table ≡ Table.new id rng
        → env.parse_u64 (show id) ≡ some id
        → (set_batches env bs s).0 ≡ ok tt
        → ((r : Restored)
            → restore env show rng (left_behind show id bs tail s) ≡ ok r
            → r.max_seq + 2 < 2 ^ 64)
        → dir.open_wal ((id + 1) % 2 ^ 64) ≡ ok (name, wal)
        → env.parse_u64 name ≡ some n
        → (db : Db env) × (open_db env dir rng show (left_behind show id bs tail s) [] ≡ ok db)
          × ((key : Bytes)
              → get env db key
                ≡ Levels.get env
                    (record {
                      active = (set_batches env bs s).1;
                      frozen = [];
                      storage = no_tables env;
                    })
                    key)
    unfolding Levels.get
    get-open_db show id n bs tail s name wal hb ht empty synced fresh named h not_last o p =
        let (restored, t, r, tables, below, entries) =
          restored_table show id bs tail s hb ht empty synced fresh named h in
        let small = not_last restored r in
        let (new_valid, _) = iter-new id rng in
        let w = set_batches-IsWritten env bs s (rw fresh new_valid) h in
        let s' = (set_batches env bs s).1 in
        let next = ((id + 1) % 2 ^ 64 + 1) % 2 ^ 64 in
        (
          opened_db wal n next restored,
          open_db-one show id n _ name wal restored named r o p,
          λ key.
              get-opened wal n next restored t key tables small
              ∙ ap (λ l. ok (value_of l))
                  (restored_answers t s'.mem_table restored.max_seq key below w.is_valid entries
                    small)
              ∙ sym (get_snap-active env s' key u64_max),
        )
