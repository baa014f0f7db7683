-- ===== src/Storage/Levels/Flush.antt =====
-- Flushing the oldest frozen table to level 0.
use lowdb.Prelude.{
  ℕ, ◌+◌, ◌%◌, ◌^◌, ◌≤◌, ◌<◌, ◌≡◌, refl, ap, sym, subst, ◌∙◌, Bool, none, some, List, [], ◌∷◌, ◌++◌,
  length, All, All-imp, ◌⊎◌, inl, inr, arith,
}
use lowdb.Prelude.Bytes.{Bytes}
use lowdb.Common.Lookup.{Lookup, absent}
use lowdb.Common.Error.{DbError, DbResult, ok, err}
use lowdb.Env.{Env}
use lowdb.Memtable.SkipList.{Rng}
use lowdb.Memtable.Sorted.{lookup_entry}
use lowdb.Memtable.Table
use lowdb.Memtable.Table.{MemTable}
use lowdb.Memtable.Table.Reads.{says, IsValid, get_snap_lem, entries-IsAscending}
use lowdb.Wal.Reader.RoundTrip.{ReadablePair}
use lowdb.Wal.Writer.Encoding.{content}
use lowdb.Sstable.Table.{SsTableMeta, get_table}
use lowdb.Sstable.Table.Layout.{Entry}
use lowdb.Sstable.Writer.{SsTableWriter, create, finish, finish_entries}
use lowdb.Sstable.Writer.Filled.{add_all, Given, add_all-Given, create-IsFilled}
use lowdb.Sstable.Writer.Written.{get_table-finish}
use lowdb.Storage.Disk
use lowdb.Storage.Disk.{
  DiskStorage, SsTable, update_level, insert_front, add_newest, place_table, write_l0, l0,
  search_tables, search_levels,
}
use lowdb.Storage.Disk.Newest.{
  newest_only, add_newest_lem, newest_only-Readable, length-newest_only, newest_only_empty,
  lookup_entry-newest_only,
}
use lowdb.Storage.Levels.{
  Dir, Layers, Storage, get_frozen, get_snap, split_last, flush_oldest, retire_flushed,
}
use lowdb.Storage.Levels.Freeze.{or_lookup}
use lowdb.Storage.Levels.Placed.{split_last-append, first_says, search-place_table}

module _ (env : Env) where
  open env use {stored}

  get_frozen-append :
      (xs ys : List MemTable) (key : Bytes) (seq : ℕ)
      → get_frozen env (xs ++ ys) key seq
        ≡ or_lookup (get_frozen env xs key seq) (get_frozen env ys key seq)
  unfolding get_frozen
  get_frozen-append [] ys key seq = refl
  get_frozen-append (x ∷ xs) ys key seq = ground (arith, get_frozen-append xs ys key seq)

  -- What a table that is flushed has to be: well formed, of entries that read back from disk, not newer
  -- than the snapshot, and fewer than a word counts; and the file it is flushed to is new.
  pub record IsFlushable (mt : MemTable) (file : env.BufWriter) (seq : ℕ) : Type 0 where
    pub is_valid : IsValid mt
    pub readable : All (ReadablePair env) (Table.iter mt)
    pub seen : All (λ (e : Entry). e.0.seq ≤ seq) (Table.iter mt)
    pub few : length (Table.iter mt) < 2 ^ 64
    pub empty : content env file ≡ []

  finish-none : (w : SsTableWriter env) → (finish env w).0 ≡ ok none → w.entries ≡ 0
  unfolding finish finish_entries
  finish-none w h = ground (arith, h)

  -- The writer behind the entries of a table, and the file that it leaves.
  abbrev fed : env.BufWriter → MemTable → SsTableWriter env
  fed file mt = (add_newest env none (Table.iter mt) (create env file)).1

  abbrev pub table_file : env.BufWriter → MemTable → Bytes
  table_file file mt = stored (finish env (fed file mt)).1

  -- Where a table was written, the writer took every entry, and the table is placed.
  write_l0_inv :
      (file : env.BufWriter) (mt : MemTable) (d : DiskStorage) (b : Bool)
      → (write_l0 env file mt d).0 ≡ ok b
      → ((add_newest env none (Table.iter mt) (create env file)).0 ≡ ok tt)
        × (write_l0 env file mt d
            ≡ place_table env (finish env (fed file mt)).0 (finish env (fed file mt)).1 d)
  unfolding write_l0
  write_l0_inv file mt d b h = ground (arith, h)

  write_l0-err :
      (file : env.BufWriter) (mt : MemTable) (d : DiskStorage) (e : DbError)
      → (write_l0 env file mt d).0 ≡ err e
      → (write_l0 env file mt d).1.tables ≡ d.tables
  unfolding write_l0 place_table
  write_l0-err file mt d e h = ground (arith, h)

  -- Where `finish` makes no table there were no entries.
  nothing_flushed :
      (file : env.BufWriter) (mt : MemTable) (low : ℕ)
      → IsFlushable mt file low
      → (add_all env (newest_only none (Table.iter mt)) (create env file)).0 ≡ ok tt
      → (finish env (add_all env (newest_only none (Table.iter mt)) (create env file)).1).0
        ≡ ok none
      → Table.iter mt ≡ []
  nothing_flushed file mt low f added h =
      let es = newest_only none (Table.iter mt) in
      let w = (add_all env es (create env file)).1 in
      let start : Given env [] (create env file) = ([], ([], create-IsFilled env file f.empty)) in
      let (bs, (cur, filled)) =
        add_all-Given env [] es (create env file) start
          (newest_only-Readable env (Table.iter mt) f.readable) added in
      newest_only_empty (Table.iter mt) (
        omega
          (arith, filled.counted, finish-none w h, length-newest_only (Table.iter mt) none, f.few))

  -- What a flushed table answers: what a scan of the newest version of each key finds.
  abbrev pub flushed_says : MemTable → Bytes → ℕ → Lookup
  flushed_says mt key seq = says (lookup_entry key seq (newest_only none (Table.iter mt)))

  flushed_lookup :
      (file : env.BufWriter) (mt : MemTable) (key : Bytes) (seq low : ℕ) (meta : SsTableMeta)
      → IsFlushable mt file low
      → (add_newest env none (Table.iter mt) (create env file)).0 ≡ ok tt
      → (finish env (fed file mt)).0 ≡ ok (some meta)
      → length (table_file file mt) < 2 ^ 64
      → get_table env (table_file file mt) meta key seq ≡ ok (flushed_says mt key seq)
  flushed_lookup file mt key seq low meta f added done small =
      let es = newest_only none (Table.iter mt) in
      let same_run = add_newest_lem env (Table.iter mt) none (create env file) in
      let Run : Type 0 = DbResult (Unit {0}) × SsTableWriter env in
      subst
        (λ (r : Run).
          get_table env (stored (finish env r.1).1) meta key seq ≡ ok (flushed_says mt key seq))
        (sym same_run)
        (get_table-finish env file es meta key seq f.empty
          (newest_only-Readable env (Table.iter mt) f.readable)
          (subst (λ (r : Run). r.0 ≡ ok tt) same_run added)
          (subst (λ (r : Run). (finish env r.1).0 ≡ ok (some meta)) same_run done)
          (subst (λ (r : Run). length (stored (finish env r.1).1) < 2 ^ 64) same_run small))

  search-write_l0 :
      (file : env.BufWriter) (mt : MemTable) (d : DiskStorage) (b : Bool) (key : Bytes)
      (seq low : ℕ)
      → IsFlushable mt file low
      → (write_l0 env file mt d).0 ≡ ok b
      → length (table_file file mt) < 2 ^ 64
      → search_levels env (write_l0 env file mt d).1.tables key seq
        ≡ first_says env (flushed_says mt key seq) (search_levels env d.tables key seq)
  unfolding lookup_entry newest_only
  search-write_l0 file mt d b key seq low f h small =
      let (added, placed) = write_l0_inv file mt d b h in
      let same_run = add_newest_lem env (Table.iter mt) none (create env file) in
      let (finished, out) = finish env (fed file mt) in
      let answer = flushed_says mt key seq in
      let nothing : finished ≡ ok none → answer ≡ absent = λ e.
        rw
          (nothing_flushed file mt low f (rw same_run at added) (
            subst (λ (r : DbResult (Unit {0}) × SsTableWriter env). (finish env r.1).0 ≡ ok none)
              same_run e))
          refl in
      rw placed (
        search-place_table env finished out d b key seq answer (rw placed at h) nothing
          (λ meta e. flushed_lookup file mt key seq low meta f added e small))

  -- Flushing keeps the layers, or moves the last frozen table to the disk.
  abbrev pub IsMoved : Layers env → Layers env → List MemTable → MemTable → Bytes → ℕ → Type 0
  IsMoved s s' mts mt key seq =
      (s'.active ≡ s.active)
      × (((s'.frozen ≡ s.frozen)
            × (search_levels env s'.storage.tables key seq
                ≡ search_levels env s.storage.tables key seq))
          ⊎ ((s'.frozen ≡ mts)
              × (search_levels env s'.storage.tables key seq
                  ≡ first_says env (flushed_says mt key seq)
                      (search_levels env s.storage.tables key seq))))

  retired_state :
      (dir : Dir env) (rng : Rng) (written : Bool) (disk : DiskStorage) (mts : List MemTable)
      (id : ℕ) (s : Storage env)
      → (retire_flushed env dir rng (ok written) disk mts id s).1.state
        ≡ record s.state { storage = disk; frozen = mts }
  unfolding retire_flushed
  retired_state dir rng written disk mts id s = ground arith

  retire-IsMoved :
      (dir : Dir env) (rng : Rng) (r : DbResult Bool) (disk : DiskStorage) (mts : List MemTable)
      (mt : MemTable) (s : Storage env) (key : Bytes) (seq : ℕ)
      → ((e : DbError) → r ≡ err e → disk.tables ≡ s.state.storage.tables)
      → ((b : Bool)
          → r ≡ ok b
          → search_levels env disk.tables key seq
            ≡ first_says env
                (flushed_says mt key seq)
                (search_levels env s.state.storage.tables key seq))
      → IsMoved s.state (retire_flushed env dir rng r disk mts mt.id s).1.state mts mt key seq
  retire-IsMoved dir rng (err e) disk mts mt s key seq kept moved =
      unfold retire_flushed in (refl, inl (refl, rw (kept e refl) refl))
  retire-IsMoved dir rng (ok b) disk mts mt s key seq kept moved =
      rw (retired_state dir rng b disk mts mt.id s) (refl, inr (refl, moved b refl))

  pub flush_oldest-IsMoved :
      (dir : Dir env) (rng : Rng) (s : Storage env) (mts : List MemTable) (mt : MemTable)
      (key : Bytes) (seq low : ℕ)
      → s.state.frozen ≡ mts ++ mt ∷ []
      → IsFlushable mt (dir.create_table s.state.storage.id) low
      → length (table_file (dir.create_table s.state.storage.id) mt) < 2 ^ 64
      → IsMoved s.state (flush_oldest env dir rng s).1.state mts mt key seq
  unfolding flush_oldest l0
  flush_oldest-IsMoved dir rng s mts mt key seq low e f small =
      let last : split_last s.state.frozen ≡ some (mts, mt) = rw e (split_last-append mts mt) in
      let file = dir.create_table s.state.storage.id in
      let d : DiskStorage = record s.state.storage { id = (s.state.storage.id + 1) % 2 ^ 64 } in
      let (written, disk) = write_l0 env file mt d in
      rw (flush_oldest, last)
        (retire-IsMoved dir rng written disk mts mt s key seq (write_l0-err file mt d)
          (λ b done. search-write_l0 file mt d b key seq low f done small))

  -- The layers read the same when the answer of the last frozen table has moved to the disk.
  get_snap_moved :
      (s s' : Layers env) (mts : List MemTable) (mt : MemTable) (key : Bytes) (seq : ℕ)
      → s.frozen ≡ mts ++ mt ∷ []
      → flushed_says mt key seq ≡ Table.get_snap mt key seq
      → IsMoved s s' mts mt key seq
      → get_snap env s' key seq ≡ get_snap env s key seq
  unfolding get_snap get_frozen Disk.get_snap
  get_snap_moved s s' mts mt key seq e same (active, inl (frozen, disk)) =
      let top : Table.get_snap s'.active.mem_table key seq
          ≡ Table.get_snap s.active.mem_table key seq =
        rw active refl in
      let middle : get_frozen env s'.frozen key seq ≡ get_frozen env s.frozen key seq =
        rw frozen refl in
      ground (arith, top, middle, disk)
  get_snap_moved s s' mts mt key seq e same (active, inr (frozen, disk)) =
      let top : Table.get_snap s'.active.mem_table key seq
          ≡ Table.get_snap s.active.mem_table key seq =
        rw active refl in
      let middle : get_frozen env s'.frozen key seq ≡ get_frozen env mts key seq = rw frozen refl in
      let layers : get_frozen env s.frozen key seq
          ≡ or_lookup (get_frozen env mts key seq) (get_frozen env (mt ∷ []) key seq) =
        rw e (get_frozen-append mts (mt ∷ []) key seq) in
      ground (arith, top, middle, layers, same, disk)

  -- Flushing the oldest frozen table, whether it succeeds or not, changes no read that is at or above the
  -- versions in the table. The table is well formed, has fewer than 2^64 entries, and they read back; the
  -- file is new, and what is written to it is shorter than 2^64 bytes.
  pub get_snap-flush_oldest :
      (dir : Dir env) (rng : Rng) (s : Storage env) (mts : List MemTable) (mt : MemTable)
      (key : Bytes) (seq low : ℕ)
      → s.state.frozen ≡ mts ++ mt ∷ []
      → low ≤ seq
      → IsFlushable mt (dir.create_table s.state.storage.id) low
      → length (table_file (dir.create_table s.state.storage.id) mt) < 2 ^ 64
      → get_snap env (flush_oldest env dir rng s).1.state key seq ≡ get_snap env s.state key seq
  get_snap-flush_oldest dir rng s mts mt key seq low e le f small =
      let seen = All-imp _ _ (λ x b. omega arith) (Table.iter mt) f.seen in
      let newest =
        lookup_entry-newest_only key seq (Table.iter mt) (entries-IsAscending mt f.is_valid) seen in
      let same : flushed_says mt key seq ≡ Table.get_snap mt key seq =
        ap says newest ∙ sym (get_snap_lem mt key seq f.is_valid) in
      get_snap_moved s.state (flush_oldest env dir rng s).1.state mts mt key seq e same
        (flush_oldest-IsMoved dir rng s mts mt key seq low e f small)
