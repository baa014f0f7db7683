-- ===== src/Storage/Levels.antt =====
-- storage/src/state.rs, the rest of storage/src/lib.rs, and `Wal` of storage/src/wal.rs. Each operation is
-- one step of the state that it reads and replaces under its locks; what a memory table is known by in
-- `retire`, its pointer, is its place in the list. The calls on the directory (opening and removing a log,
-- creating the file of a table) are a parameter. The notices between the tasks are left out.
pub mod Freeze
pub mod Placed
pub mod Flush
pub mod Drain
use lowdb.Prelude.{
  ℕ, zero, suc, ◌+◌, ◌%◌, ◌^◌, Bool, true, false, Option, none, some, List, [], ◌∷◌, ◌++◌, leb,
  length, if◌then◌else◌,
}
use lowdb.Prelude.Bytes.{Bytes}
use lowdb.Common.Key.{Key}
use lowdb.Common.Value.{Value}
use lowdb.Common.Lookup.{Lookup, found, deleted, absent}
use lowdb.Common.Error.{
  DbError, DbResult, ok, err, io, not_found, unexpected_eof, other, invalid_int, invalid_value,
  invalid_state, commit_conflict, ◌>>=◌,
}
use lowdb.Env.{Env}
use lowdb.Memtable.SkipList.{Rng}
use lowdb.Memtable.Table
use lowdb.Memtable.Table.{MemTable, u64_max}
use lowdb.Storage.{State, set_batch}
use lowdb.Storage.Disk
use lowdb.Storage.Disk.{DiskStorage, l0}
use lowdb.Wal.{tx_begin, tx_commit}
use lowdb.Wal.Writer.{append}

abbrev pub max_frozen : ℕ
max_frozen = 4

-- `frozen.last()`, and the tables before it
unfoldable pub split_last : List MemTable → Option (List MemTable × MemTable)
split_last [] = none
split_last (mt ∷ mts) = elim (split_last mts) [
  | none ↦ some ([], mt)
  | some p ↦ some (mt ∷ p.0, p.1)
]

module _ (env : Env) where
  -- What the directory answers: opening a log by its number gives the number as the name has it, and the
  -- file; a new table's file; the result of removing a log.
  pub record Dir : Type 0 where
    pub open_wal : ℕ → DbResult (Bytes × env.BufWriter)
    pub create_table : ℕ → env.BufWriter
    pub remove_wal : ℕ → DbResult (Unit {0})

  -- `State` with its frozen tables, the newest first, and the tables on disk
  pub record Layers : Type 0 where
    pub active : State env
    pub frozen : List MemTable
    pub storage : DiskStorage

  -- `Storage` with the state and the number of the next log
  pub record Storage : Type 0 where
    pub state : Layers
    pub wal_id : ℕ
    pub shutdown : Bool

  unfoldable pub get_frozen : List MemTable → Bytes → ℕ → Lookup
  get_frozen [] key seq = absent
  get_frozen (mt ∷ mts) key seq =
      let rest = get_frozen mts key seq in
      elim (Table.get_snap mt key seq) [
        | found value ↦ found value
        | deleted ↦ deleted
        | absent ↦ rest
      ]

  -- `State::get_snap`
  unfoldable pub get_snap : Layers → Bytes → ℕ → DbResult (Option Bytes)
  get_snap s key seq =
      let on_disk = Disk.get_snap env s.storage key seq >>= λ lookup. elim lookup [
        | found value ↦ ok (some value)
        | deleted ↦ ok none
        | absent ↦ ok none
      ] in
      elim (Table.get_snap s.active.mem_table key seq) [
        | found value ↦ ok (some value)
        | deleted ↦ ok none
        | absent ↦ elim (get_frozen s.frozen key seq) [
          | found value ↦ ok (some value)
          | deleted ↦ ok none
          | absent ↦ on_disk
        ]
      ]

  unfoldable pub get : Layers → Bytes → DbResult (Option Bytes)
  get s key = get_snap s key u64_max

  module _ (dir : Dir) (rng : Rng) where
    -- `Wal::new_writer`
    unfoldable pub new_writer : ℕ → DbResult (Bytes × env.BufWriter) × ℕ
    new_writer id = (dir.open_wal id, (id + 1) % 2 ^ 64)

    -- `State::new` behind it
    unfoldable pub new_state : Bytes × env.BufWriter → List MemTable → DiskStorage → DbResult Layers
    new_state wal frozen storage = elim (env.parse_u64 wal.0) [
      | none ↦ err invalid_value
      | some id ↦ ok (record {
        active = record { wal = wal.1; mem_table = Table.new id rng };
        frozen = frozen;
        storage = storage;
      })
    ]

    -- `Storage::new`
    unfoldable pub new_storage : ℕ → DiskStorage → List MemTable → DbResult Storage
    new_storage wal_id storage tables =
        let (opened, next_id) = new_writer wal_id in
        do
          wal ← opened
          state ← new_state wal tables storage
          ok (record { state = state; wal_id = next_id; shutdown = false })

    -- the end of `force_freeze`
    unfoldable pub replace_active : ℕ → env.BufWriter → Layers → Layers
    replace_active id wal s = record s {
      active = record { wal = wal; mem_table = Table.new id rng };
      frozen = s.active.mem_table ∷ s.frozen;
    }

    -- `force_freeze` with the parsed number of the new log, and with the result of opening it
    unfoldable pub freeze_parsed :
        Option ℕ → env.BufWriter → Storage → DbResult (Unit {0}) × Storage
    freeze_parsed none wal s = (err invalid_value, s)
    freeze_parsed (some id) wal s = (ok tt, record s { state = replace_active id wal s.state })

    unfoldable pub freeze_opened :
        DbResult (Bytes × env.BufWriter) → Storage → DbResult (Unit {0}) × Storage
    freeze_opened (err e) s = (err e, s)
    freeze_opened (ok wal) s = freeze_parsed (env.parse_u64 wal.0) wal.1 s

    unfoldable pub force_freeze : Storage → DbResult (Unit {0}) × Storage
    force_freeze s =
        let (opened, next_id) = new_writer s.wal_id in
        freeze_opened opened (record s { wal_id = next_id })

    -- The test is made again under the lock; in one step it has the same answer.
    unfoldable pub freeze_if_full : Storage → DbResult (Unit {0}) × Storage
    freeze_if_full s =
        let frozen = force_freeze s in
        if Table.is_full s.state.active.mem_table then frozen else (ok tt, s)

    unfoldable pub freeze_active : Storage → DbResult (Unit {0}) × Storage
    freeze_active s =
        let frozen = force_freeze s in
        if Table.is_empty s.state.active.mem_table then (ok tt, s) else frozen

    -- `Wal::remove`
    unfoldable pub remove_log : ℕ → DbResult (Unit {0})
    remove_log id = elim (dir.remove_wal id) [
      | ok _ ↦ ok tt
      | err e ↦ elim e [
        | invalid_int ↦ err invalid_int
        | invalid_value ↦ err invalid_value
        | invalid_state ↦ err invalid_state
        | commit_conflict ↦ err commit_conflict
        | io kind ↦ elim kind [
          | not_found ↦ ok tt
          | unexpected_eof ↦ err (io unexpected_eof)
          | other ↦ err (io other)
        ]
      ]
    ]

    -- The end of `flush_oldest`: the table is on disk before it leaves the list, and its log goes last.
    unfoldable pub retire_flushed :
        DbResult Bool → DiskStorage → List MemTable → ℕ → Storage → DbResult Bool × Storage
    retire_flushed (err e) disk mts id s =
        (err e, record s { state = record s.state { storage = disk } })
    retire_flushed (ok written) disk mts id s =
        let s1 = record s { state = record s.state { storage = disk; frozen = mts } } in
        elim (remove_log id) [ err e ↦ (err e, s1) | ok _ ↦ (ok true, s1) ]

    unfoldable pub flush_oldest : Storage → DbResult Bool × Storage
    flush_oldest s = elim (split_last s.state.frozen) [
      | none ↦ (ok false, s)
      | some p ↦
          let (written, disk) = l0 env (dir.create_table s.state.storage.id) p.1 s.state.storage in
          retire_flushed written disk p.0 p.1.id s
    ]

    -- what follows a call of `flush_oldest` in `flush_frozen`
    unfoldable pub after_flush :
        DbResult Bool → Storage → DbResult (Unit {0}) × Storage → DbResult (Unit {0}) × Storage
    after_flush (err e) s rest = (err e, s)
    after_flush (ok true) s rest = rest
    after_flush (ok false) s rest = (ok tt, s)

    -- `flush_frozen`, on fuel: every round takes a table from the list.
    unfoldable pub flush_frozen : ℕ → Storage → DbResult (Unit {0}) × Storage
    flush_frozen zero s = (ok tt, s)
    flush_frozen (suc n) s = let (r, s') = flush_oldest s in after_flush r s' (flush_frozen n s')

    unfoldable pub flush_all : Storage → DbResult (Unit {0}) × Storage
    flush_all s =
        let (r, s') = freeze_active s in
        elim r [ err e ↦ (err e, s') | ok _ ↦ flush_frozen (suc (length s'.state.frozen)) s' ]

  -- one test of `await_flush_capacity`
  unfoldable pub has_capacity : Storage → Bool
  has_capacity s = leb (length s.state.frozen) max_frozen

  unfoldable pub begin_shutdown : Storage → Storage
  begin_shutdown s = record s { shutdown = true }

  -- `begin`, `commit` and `set_batch` on the current state
  unfoldable pub begin : ℕ → Storage → DbResult (Unit {0}) × Storage
  begin tx_id s =
      let (r, wal) = append env (tx_begin tx_id) s.state.active.wal in
      (r, record s { state = record s.state { active = record s.state.active { wal = wal } } })

  unfoldable pub commit : ℕ → Storage → DbResult (Unit {0}) × Storage
  commit tx_id s =
      let (r, wal) = append env (tx_commit tx_id) s.state.active.wal in
      (r, record s { state = record s.state { active = record s.state.active { wal = wal } } })

  unfoldable pub write_batch : ℕ → List (Key × Value) → Storage → DbResult (Unit {0}) × Storage
  write_batch tx_id batch s =
      let (r, active) = set_batch env tx_id batch s.state.active in
      (r, record s { state = record s.state { active = active } })
