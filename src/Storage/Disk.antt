-- ===== src/Storage/Disk.antt =====
-- storage/src/storage.rs, storage/src/tables.rs, and `SSTable::new` and `SSTable::open` (sstable/src/
-- table.rs). A table is its file and its meta data. The map from levels to their tables is a list in
-- ascending order of the levels, which is the order in which `get_snap` asks them. A directory is the
-- list of its files, each with its name; creating and removing files in it is left out, so the new file
-- that `l0` writes is an argument.
pub mod Newest
pub mod Loaded
use lowdb.Prelude.{
  ℕ, ◌+◌, ◌%◌, ◌^◌, compare, Ordering, Bool, true, false, Option, none, some, List, [], ◌∷◌, ◌++◌,
  ◌==◌, max, if◌then◌else◌, ltb, ◌||◌, ◌&&◌,
}
use lowdb.Prelude.Bytes.{Bytes}
use lowdb.Common.Key.{Key, same}
use lowdb.Common.Value.{Value}
use lowdb.Common.Lookup.{Lookup, found, deleted, absent}
use lowdb.Common.Error.{DbResult, ok, err, ◌>>=◌}
use lowdb.Env.{Env}
use lowdb.Memtable.Table
use lowdb.Memtable.Table.{MemTable, u64_max}
use lowdb.Sstable.Meta.{read_meta}
use lowdb.Sstable.Table.{SsTableMeta, get_table}
use lowdb.Sstable.Writer.{SsTableWriter, create, add, finish}

pub record SsTable : Type 0 where
  pub file : Bytes
  pub meta : SsTableMeta

pub record DiskStorage : Type 0 where
  pub id : ℕ
  pub max_seq : ℕ
  pub tables : List (ℕ × List SsTable)

-- `entry(level).or_insert_with(SSTables::new)` and a change of its tables
unfoldable pub update_level :
    ℕ → (List SsTable → List SsTable) → List (ℕ × List SsTable) → List (ℕ × List SsTable)
update_level level f [] = (level, f []) ∷ []
update_level level f ((l, ts) ∷ ls) =
    let rest = update_level level f ls in
    elim (compare level l) [
      | Ordering.lt ↦ (level, f []) ∷ (l, ts) ∷ ls
      | Ordering.eq ↦ (l, f ts) ∷ ls
      | Ordering.gt ↦ (l, ts) ∷ rest
    ]

-- `SSTables::push` and `SSTables::insert` at 0
abbrev pub push : SsTable → List SsTable → List SsTable
push t ts = ts ++ t ∷ []

abbrev pub insert_front : SsTable → List SsTable → List SsTable
insert_front t ts = t ∷ ts

-- `split_once('_')`
unfoldable pub split_once : Bytes → Option (Bytes × Bytes)
split_once [] = none
split_once (b ∷ bs) =
    let rest = split_once bs in
    if b == 95 then some ([], bs) else elim rest [ none ↦ none | some p ↦ some (b ∷ p.0, p.1) ]

-- a file of the directory with the level and the id that its name has
pub record Named : Type 0 where
  pub level : ℕ
  pub id : ℕ
  pub content : Bytes

-- `a.0.cmp(&b.0).then(b.1.cmp(&a.1))`, as a test
unfoldable pub sorts_before : Named → Named → Bool
sorts_before a b = elim (compare a.level b.level) [
  | Ordering.lt ↦ true
  | Ordering.eq ↦ ltb b.id a.id
  | Ordering.gt ↦ false
]

-- `sort_unstable_by`
unfoldable pub insert_file : Named → List Named → List Named
insert_file f [] = f ∷ []
insert_file f (g ∷ gs) = if sorts_before g f then g ∷ insert_file f gs else f ∷ g ∷ gs

unfoldable pub sort_files : List Named → List Named
sort_files [] = []
sort_files (f ∷ fs) = insert_file f (sort_files fs)

unfoldable pub max_id : List Named → ℕ
max_id [] = 0
max_id (f ∷ fs) = max f.id (max_id fs)

module _ (env : Env) where
  unfoldable pub parse_name : Bytes → Option (ℕ × ℕ)
  parse_name filename = elim (split_once filename) [
    | none ↦ none
    | some p ↦ elim (env.parse_u32 p.0) [
      | none ↦ none
      | some level ↦ elim (env.parse_u64 p.1) [ none ↦ none | some id ↦ some (level, id) ]
    ]
  ]

  -- the loop over the directory; stray files are only removed
  unfoldable pub named_files : List (Bytes × Bytes) → List Named
  named_files [] = []
  named_files ((filename, content) ∷ fs) =
      let rest = named_files fs in
      elim (parse_name filename) [
        | none ↦ rest
        | some p ↦ record { level = p.0; id = p.1; content = content } ∷ rest
      ]

  -- `SSTable::open`
  unfoldable pub open_table : Bytes → DbResult SsTable
  open_table file = do meta ← read_meta env file; ok (record { file = file; meta = meta })

  -- the loop of `load` over the sorted files
  unfoldable pub load_files : List Named → DiskStorage → DbResult DiskStorage
  load_files [] d = ok d
  load_files (f ∷ fs) d = do
    table ← open_table f.content
    load_files fs (record d {
      max_seq = max d.max_seq table.meta.footer.largest_seq;
      tables = update_level f.level (push table) d.tables;
    })

  unfoldable pub load : List (Bytes × Bytes) → DbResult DiskStorage
  load dir =
      let files = sort_files (named_files dir) in
      let next_id = (max_id files + 1) % 2 ^ 64 in
      load_files files (record { id = next_id; max_seq = 0; tables = [] })

  -- The loop of `write_l0`. An entry of the user's key of the entry before it is skipped.
  unfoldable pub add_newest :
      Option Bytes
      → List (Key × Value)
      → SsTableWriter env
      → DbResult (Unit {0}) × SsTableWriter env
  add_newest previous [] w = (ok tt, w)
  add_newest previous ((k, v) ∷ es) w =
      let skipped = add_newest previous es w in
      let (r, w') = add env k v w in
      let rest = add_newest (some k.user) es w' in
      if (elim previous [ none ↦ false | some user ↦ same user k.user ])
      then skipped
      else elim r [ err e ↦ (err e, w') | ok _ ↦ rest ]

  -- the end of `write_l0`, with what `finish` returned and the file
  unfoldable pub place_table :
      DbResult (Option SsTableMeta) → env.BufWriter → DiskStorage → DbResult Bool × DiskStorage
  place_table (err e) file d = (err e, d)
  place_table (ok none) file d = (ok false, d)
  place_table (ok (some meta)) file d =
      let table : SsTable = record { file = env.stored file; meta = meta } in
      (ok true, record d { tables = update_level 0 (insert_front table) d.tables })

  unfoldable pub write_l0 : env.BufWriter → MemTable → DiskStorage → DbResult Bool × DiskStorage
  write_l0 new_file mt d =
      let (added, w) = add_newest none (Table.iter mt) (create env new_file) in
      let (finished, file) = finish env w in
      elim added [ err e ↦ (err e, d) | ok _ ↦ place_table finished file d ]

  unfoldable pub l0 : env.BufWriter → MemTable → DiskStorage → DbResult Bool × DiskStorage
  l0 new_file mt d = write_l0 new_file mt (record d { id = (d.id + 1) % 2 ^ 64 })

  -- the inner and the outer loop of `get_snap`
  unfoldable pub search_tables : List SsTable → Bytes → ℕ → DbResult Lookup
  search_tables [] key seq = ok absent
  search_tables (t ∷ ts) key seq = get_table env t.file t.meta key seq >>= λ lookup. elim lookup [
    | found value ↦ ok (found value)
    | deleted ↦ ok deleted
    | absent ↦ search_tables ts key seq
  ]

  unfoldable pub search_levels : List (ℕ × List SsTable) → Bytes → ℕ → DbResult Lookup
  search_levels [] key seq = ok absent
  search_levels ((l, ts) ∷ ls) key seq = search_tables ts key seq >>= λ lookup. elim lookup [
    | found value ↦ ok (found value)
    | deleted ↦ ok deleted
    | absent ↦ search_levels ls key seq
  ]

  unfoldable pub get_snap : DiskStorage → Bytes → ℕ → DbResult Lookup
  get_snap d key seq = search_levels d.tables key seq

  unfoldable pub get : DiskStorage → Bytes → DbResult Lookup
  unfolding get_snap
  get d key = get_snap d key u64_max
