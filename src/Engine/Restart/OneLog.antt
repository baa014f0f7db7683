-- ===== src/Engine/Restart/OneLog.antt =====
-- A directory with one log, and a database without tables (`DB::open`, engine/src/lib.rs).
use lowdb.Prelude.{ℕ, ◌+◌, ◌%◌, ◌≤◌, ◌^◌, ◌≡◌, refl, Option, none, some, List, [], ◌∷◌, All, arith}
use lowdb.Prelude.Bytes.{Bytes}
use lowdb.Common.Key.{cmp}
use lowdb.Common.Key.Order.{cmp_str_refl}
use lowdb.Common.Lookup.{Lookup, found, deleted, absent}
use lowdb.Common.Error.{ok}
use lowdb.Env.{Env}
use lowdb.Memtable.Sorted.{lookup_entry}
use lowdb.Memtable.Table
use lowdb.Memtable.Table.{MemTable, u64_max}
use lowdb.Storage.{State}
use lowdb.Storage.Disk
use lowdb.Storage.Disk.{DiskStorage, load}
use lowdb.Storage.Levels
use lowdb.Storage.Levels.{Dir, Layers, Storage, get_snap, new_storage, new_state, new_writer}
use lowdb.Storage.LogDir.{
  next_wal_id, load_wals, wal_ids, parsed_ids, sort_ids, insert_id, open_readers, open_reader,
  find_file, reverse, latest_id, last_or_zero,
}
use lowdb.Sstable.Table.Layout.{Entry}

-- Two snapshots that see every version find the same.
pub lookup_entry-all_seen :
    (key : Bytes) (s s' : ℕ) (es : List Entry)
    → All (λ (e : Entry). e.0.seq ≤ s) es
    → All (λ (e : Entry). e.0.seq ≤ s') es
    → lookup_entry key s es ≡ lookup_entry key s' es
unfolding lookup_entry cmp
lookup_entry-all_seen key s s' [] h h' = refl
lookup_entry-all_seen key s s' ((k, v) ∷ es) (h, hs) (h', hs') =
    let rest = lookup_entry-all_seen key s s' es hs hs' in ground (arith, rest, h, h')

-- What `get` returns for the answer of the layers.
abbrev pub value_of : Lookup → Option Bytes
value_of (found v) = some v
value_of deleted = none
value_of absent = none

find_file-one : (name content : Bytes) → find_file name ((name, content) ∷ []) ≡ some content
unfolding find_file
find_file-one name content = ground (arith, cmp_str_refl name)

module _ (env : Env) where
  -- A disk without tables.
  abbrev pub no_tables : DiskStorage
  no_tables = record { id = 1; max_seq = 0; tables = [] }

  pub load-none : load env [] ≡ ok no_tables
  unfolding load Disk.named_files Disk.sort_files Disk.max_id Disk.load_files
  load-none = refl

  pub get_snap-active :
      (a : State env) (key : Bytes) (seq : ℕ)
      → get_snap env (record { active = a; frozen = []; storage = no_tables }) key seq
        ≡ ok (value_of (Table.get_snap a.mem_table key seq))
  unfolding get_snap Levels.get_frozen Disk.get_snap Disk.search_levels
  get_snap-active a key seq = ground arith

  pub get_snap-frozen :
      (a : State env) (t : MemTable) (key : Bytes) (seq : ℕ)
      → Table.get_snap a.mem_table key seq ≡ absent
      → get_snap env (record { active = a; frozen = t ∷ []; storage = no_tables }) key seq
        ≡ ok (value_of (Table.get_snap t key seq))
  unfolding get_snap Levels.get_frozen Disk.get_snap Disk.search_levels
  get_snap-frozen a t key seq h = ground (arith, h)

  wal_ids-one :
      (name : Bytes) (id : ℕ) (content : Bytes)
      → env.parse_u64 name ≡ some id
      → wal_ids env ((name, content) ∷ []) ≡ id ∷ []
  unfolding wal_ids parsed_ids sort_ids insert_id
  wal_ids-one name id content e = rw (wal_ids, parsed_ids, e) refl

  pub load_wals-one :
      (show : ℕ → Bytes) (id : ℕ) (content : Bytes)
      → env.parse_u64 (show id) ≡ some id
      → load_wals env show ((show id, content) ∷ [])
        ≡ record { id = show id; unread = content } ∷ []
  unfolding load_wals open_readers open_reader reverse
  load_wals-one show id content e =
      let ids = wal_ids-one (show id) id content e in
      rw (load_wals, ids, open_readers, open_reader, find_file-one (show id) content) refl

  pub next_wal_id-one :
      (name : Bytes) (id : ℕ) (content : Bytes)
      → env.parse_u64 name ≡ some id
      → next_wal_id env ((name, content) ∷ []) ≡ (id + 1) % 2 ^ 64
  unfolding next_wal_id latest_id last_or_zero
  next_wal_id-one name id content e =
      let ids = wal_ids-one name id content e in rw (next_wal_id, latest_id, ids) refl
