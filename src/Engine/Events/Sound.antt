-- ===== src/Engine/Events/Sound.antt =====
-- The invariant of a database, and that every event preserves it.
use lowdb.Prelude.{
  ℕ, ◌+◌, ◌<◌, ◌≤◌, ◌≡◌, ◌^◌, refl, subst, Bool, true, false, Option, Option-cases, none, some,
  List, [], ◌∷◌, ◌++◌, ◌&&◌, not, if◌then◌else◌, ◌%◌, All, arith, inl, inr,
}
use lowdb.Prelude.Bytes.{Bytes}
use lowdb.Common.Key.{Key}
use lowdb.Common.Value.{Value}
use lowdb.Common.Error.{DbResult, ok, err}
use lowdb.Env.{Env}
use lowdb.Memtable.SkipList.{Rng}
use lowdb.Memtable.Sorted.Merge.{insert_all}
use lowdb.Memtable.Table.{MemTable, put_all}
use lowdb.Memtable.Table.Below.{
  IsBelow, IsBelow-up, AllBelow-up, new-IsBelow, All-insert_all, put_all-Below,
}
use lowdb.Sstable.Table.Layout.{Entry}
use lowdb.Storage.{State, set_batch}
use lowdb.Storage.Levels.{
  Dir, Storage, split_last, force_freeze, freeze_opened, freeze_parsed, new_writer, replace_active,
  flush_oldest, retire_flushed,
}
use lowdb.Storage.Disk.{DiskStorage, l0}
use lowdb.Storage.Levels.Placed.{split_last-some}
use lowdb.Transaction.Oracle
use lowdb.Transaction.Oracle.{Oracle, conflicts, versions, publish, next_tx_id}
use lowdb.Engine.{Db}
use lowdb.Engine.Events.{
  Event, commits, begins, ends, numbers, freezes, flushes, apply, run, enters, Allowed, AllAllowed,
}

All-versions :
    (P : Entry → Type 0) (n : ℕ) (kvs : List (Bytes × Value))
    → ((k : Bytes) (v : Value) → P (record { user = k; seq = n }, v))
    → All P (versions n kvs)
unfolding versions
All-versions P n [] new = tt
All-versions P n ((k, v) ∷ kvs) new = (new k v, All-versions P n kvs new)

pub All-insert_versions :
    (P : Entry → Type 0) (n : ℕ) (kvs : List (Bytes × Value)) (es : List Entry)
    → ((k : Bytes) (v : Value) → P (record { user = k; seq = n }, v))
    → All P es
    → All P (insert_all (versions n kvs) es)
All-insert_versions P n kvs es new h =
    All-insert_all P (versions n kvs) es (All-versions P n kvs new) h

put_all-IsBelow :
    (n : ℕ) (kvs : List (Bytes × Value)) (t : MemTable)
    → IsBelow n t
    → IsBelow (n + 1) (put_all (versions n kvs) t)
put_all-IsBelow n kvs t b =
    put_all-Below (n + 1) (versions n kvs) t
      (All-versions (λ (e : Entry). e.0.seq < n + 1) n kvs (λ k v. omega arith))
      (IsBelow-up n (n + 1) t (omega arith) b)

entered-IsBelow :
    (a b : Bool) (n m : ℕ) (t t' : MemTable)
    → n ≤ m
    → IsBelow n t
    → (a ≡ true → IsBelow m t')
    → IsBelow m (if a && b then t' else t)
entered-IsBelow true true n m t t' le below below' = below' refl
entered-IsBelow true false n m t t' le below below' = IsBelow-up n m t le below
entered-IsBelow false b n m t t' le below below' = IsBelow-up n m t le below

pub split_last-All :
    (P : MemTable → Type 0) (mts : List MemTable) (p : List MemTable × MemTable)
    → split_last mts ≡ some p
    → All P mts
    → All P p.0 × P p.1
split_last-All P mts p e h = parts p.0 (subst (All P) (split_last-some mts p e) h)
  where
    parts : (xs : List MemTable) → All P (xs ++ p.1 ∷ []) → All P xs × P p.1
    parts [] (x, _) = (tt, x)
    parts (x ∷ xs) (h, hs) = let (rest, last) = parts xs hs in ((h, rest), last)

module _ (env : Env) where
  -- All tables in memory are well formed and hold no version from the future, and neither is what readers
  -- see.
  pub record IsSound (db : Db env) : Type 0 where
    pub active : IsBelow db.oracle.next_seq db.inner.state.active.mem_table
    pub frozen : All (IsBelow db.oracle.next_seq) db.inner.state.frozen
    pub visible : db.oracle.visible < db.oracle.next_seq

  -- What a commit leaves in the memory table, whether it succeeds or not.
  pub set_batch_table :
      (tx_id : ℕ) (kvs : List (Key × Value)) (s : State env)
      → (set_batch env tx_id kvs s).1.mem_table
        ≡ (if enters env tx_id kvs s then put_all kvs s.mem_table else s.mem_table)
  unfolding set_batch enters
  set_batch_table tx_id kvs s = ground arith

  pub commit_table :
      (tx_id : ℕ) (read_ts : Option ℕ) (buffer : List (Bytes × Value)) (o : Oracle) (s : State env)
      → let kvs = versions o.next_seq buffer in
        (Oracle.commit env tx_id read_ts buffer o s).1.1.mem_table ≡ (
          if not (conflicts o read_ts buffer) && enters env tx_id kvs s
          then put_all kvs s.mem_table
          else s.mem_table)
  unfolding Oracle.commit
  commit_table tx_id read_ts buffer o s =
      let table = set_batch_table tx_id (versions o.next_seq buffer) s in ground (arith, table)

  -- The number of a commit is used up, or nothing was written.
  pub commit_oracle :
      (tx_id : ℕ) (read_ts : Option ℕ) (buffer : List (Bytes × Value)) (o : Oracle) (s : State env)
      → o.next_seq + 1 < 2 ^ 64
      → o.visible < o.next_seq
      → let (o', s') = (Oracle.commit env tx_id read_ts buffer o s).1 in
        (o'.visible < o'.next_seq)
        × (o.next_seq ≤ o'.next_seq)
        × (not (conflicts o read_ts buffer) ≡ true → o'.next_seq ≡ o.next_seq + 1)
  unfolding Oracle.commit publish
  commit_oracle tx_id read_ts buffer o s bound seen =
      let fits : Oracle.u64 (o.next_seq + 1) ≡ o.next_seq + 1 = omega arith in
      (ground (arith, fits), ground (arith, fits), ground (arith, fits))

  commit-IsSound :
      (dir : Dir env) (rng : Rng) (tx_id : ℕ) (read_ts : Option ℕ) (buffer : List (Bytes × Value))
      (db : Db env)
      → db.oracle.next_seq + 1 < 2 ^ 64
      → IsSound db
      → IsSound (apply env dir rng (commits tx_id read_ts buffer) db)
  unfolding apply
  commit-IsSound dir rng tx_id read_ts buffer db bound s =
      let o = db.oracle in
      let active = db.inner.state.active in
      let (seen, up, next) = commit_oracle tx_id read_ts buffer o active bound s.visible in
      let kvs = versions o.next_seq buffer in
      let n = (Oracle.commit env tx_id read_ts buffer o active).1.0.next_seq in
      let table : IsBelow n (
          if not (conflicts o read_ts buffer) && enters env tx_id kvs active
          then put_all kvs active.mem_table
          else active.mem_table) =
        entered-IsBelow (not (conflicts o read_ts buffer)) (enters env tx_id kvs active) o.next_seq
          n active.mem_table (put_all kvs active.mem_table) up s.active
          (λ e. rw (next e) (put_all-IsBelow o.next_seq buffer active.mem_table s.active)) in
      record {
        active = rw (commit_table tx_id read_ts buffer o active) table;
        frozen = AllBelow-up o.next_seq n db.inner.state.frozen up s.frozen;
        visible = seen;
      }

  -- The tables of a storage are below a number.
  abbrev TablesBelow : ℕ → Storage env → Type 0
  TablesBelow n s = IsBelow n s.state.active.mem_table × All (IsBelow n) s.state.frozen

  freeze_parsed-Below :
      (dir : Dir env) (rng : Rng) (n : ℕ) (id : Option ℕ) (wal : env.BufWriter) (s : Storage env)
      → TablesBelow n s
      → TablesBelow n (freeze_parsed env dir rng id wal s).1
  unfolding freeze_parsed replace_active
  freeze_parsed-Below dir rng n none wal s b = b
  freeze_parsed-Below dir rng n (some id) wal s b = (new-IsBelow n id rng, b)

  freeze_opened-Below :
      (dir : Dir env) (rng : Rng) (n : ℕ) (opened : DbResult (Bytes × env.BufWriter))
      (s : Storage env)
      → TablesBelow n s
      → TablesBelow n (freeze_opened env dir rng opened s).1
  unfolding freeze_opened
  freeze_opened-Below dir rng n (err e) s b = b
  freeze_opened-Below dir rng n (ok wal) s b =
      freeze_parsed-Below dir rng n (env.parse_u64 wal.0) wal.1 s b

  force_freeze-Below :
      (dir : Dir env) (rng : Rng) (n : ℕ) (s : Storage env)
      → TablesBelow n s
      → TablesBelow n (force_freeze env dir rng s).1
  unfolding force_freeze new_writer
  force_freeze-Below dir rng n s b =
      freeze_opened-Below dir rng n (dir.open_wal s.wal_id)
        (record s { wal_id = (s.wal_id + 1) % 2 ^ 64 }) b

  retire_flushed-Below :
      (dir : Dir env) (rng : Rng) (n : ℕ) (r : DbResult Bool) (disk : DiskStorage)
      (mts : List MemTable) (id : ℕ) (s : Storage env)
      → All (IsBelow n) mts
      → TablesBelow n s
      → TablesBelow n (retire_flushed env dir rng r disk mts id s).1
  unfolding retire_flushed
  retire_flushed-Below dir rng n r disk mts id s h b = ground arith

  flush_oldest-Below :
      (dir : Dir env) (rng : Rng) (n : ℕ) (s : Storage env)
      → TablesBelow n s
      → TablesBelow n (flush_oldest env dir rng s).1
  unfolding flush_oldest
  flush_oldest-Below dir rng n s b = elim (Option-cases (split_last s.state.frozen)) [
    | inl e ↦ rw (flush_oldest, e) b
    | inr (p, e) ↦
        let (before, _) = split_last-All (IsBelow n) s.state.frozen p e b.1 in
        let (written, disk) = l0 env (dir.create_table s.state.storage.id) p.1 s.state.storage in
        rw (flush_oldest, e) (retire_flushed-Below dir rng n written disk p.0 p.1.id s before b)
  ]

  pub apply-IsSound :
      (dir : Dir env) (rng : Rng) (low : ℕ) (e : Event) (db : Db env)
      → Allowed env dir rng low e db
      → IsSound db
      → IsSound (apply env dir rng e db)
  unfolding apply
  apply-IsSound dir rng low (commits tx_id read_ts buffer) db bound s =
      commit-IsSound dir rng tx_id read_ts buffer db bound s
  apply-IsSound dir rng low begins db a s =
      unfold Oracle.begin in record { active = s.active; frozen = s.frozen; visible = s.visible }
  apply-IsSound dir rng low (ends read_ts) db a s =
      unfold Oracle.end in record { active = s.active; frozen = s.frozen; visible = s.visible }
  apply-IsSound dir rng low numbers db a s =
      unfold next_tx_id in record { active = s.active; frozen = s.frozen; visible = s.visible }
  apply-IsSound dir rng low freezes db a s =
      let (active, frozen) =
        force_freeze-Below dir rng db.oracle.next_seq db.inner (s.active, s.frozen) in
      record { active = active; frozen = frozen; visible = s.visible }
  apply-IsSound dir rng low flushes db a s =
      let (active, frozen) =
        flush_oldest-Below dir rng db.oracle.next_seq db.inner (s.active, s.frozen) in
      record { active = active; frozen = frozen; visible = s.visible }

  -- Every event keeps a database sound: all tables in memory are well formed lists, none of their versions
  -- is numbered at or above the next number, and neither is what readers see. The sequence numbers do not
  -- run out.
  pub run-IsSound :
      (dir : Dir env) (rng : Rng) (low : ℕ) (es : List Event) (db : Db env)
      → AllAllowed env dir rng low es db
      → IsSound db
      → IsSound (run env dir rng es db)
  unfolding run
  run-IsSound dir rng low [] db a s = s
  run-IsSound dir rng low (e ∷ es) db (a, as') s =
      run-IsSound dir rng low es (apply env dir rng e db) as' (apply-IsSound dir rng low e db a s)
