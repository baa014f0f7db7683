-- ===== src/Engine/Events/Opened.antt =====
-- A database that was opened (`DB::open`, engine/src/lib.rs), and what happens to it then.
use lowdb.Prelude.{
  ℕ, ◌+◌, ◌<◌, ◌≡◌, ◌^◌, refl, subst, max, inl, inr, Option-cases, List, [], ◌∷◌, All, arith, Bool,
  true, false, not, if◌then◌else◌, ◌&&◌,
}
use lowdb.Prelude.Bytes.{Bytes}
use lowdb.Common.Value.{Value}
use lowdb.Common.Error.{ok, bind_inv}
use lowdb.Env.{Env}
use lowdb.Memtable.SkipList.{Rng}
use lowdb.Memtable.Table
use lowdb.Memtable.Table.{MemTable}
use lowdb.Memtable.Table.Below.{IsBelow, AllBelow-up, new-IsBelow}
use lowdb.Storage.Disk.{DiskStorage, load}
use lowdb.Storage.Disk.Loaded.{AllTables, AllTables-imp, load-AllTables}
use lowdb.Storage.Levels.{Dir, Layers, Storage, new_storage, new_state, new_writer}
use lowdb.Storage.LogDir.{Files, next_wal_id, load_wals, restore}
use lowdb.Storage.Restore.{Restored}
use lowdb.Storage.Restore.Below.{restore_tables-Below}
use lowdb.Transaction.Oracle
use lowdb.Transaction.Oracle.{u64, next_tx_id, conflicts, versions}
use lowdb.Engine.{Db, open_db}
use lowdb.Transaction.Commits.{Commits}
use lowdb.Engine.Events.{
  Event, commits, begins, ends, numbers, freezes, flushes, apply, run, note, notes, enters, Allowed,
  AllAllowed,
}
use lowdb.Engine.Events.Sound.{IsSound, commit_oracle, apply-IsSound, run-IsSound}

of_both : {A : Type 0} (P : A → Type 0) (b : Bool) (x y : A) → P x → P y → P (if b then x else y)
of_both P true x y p q = p
of_both P false x y p q = q

module _ (env : Env) (dir : Dir env) (rng : Rng) where
  new_state_inv :
      (wal : Bytes × env.BufWriter) (tables : List MemTable) (disk : DiskStorage) (s : Layers env)
      → new_state env dir rng wal tables disk ≡ ok s
      → (n : ℕ) × (s.active.mem_table ≡ Table.new n rng) × (s.frozen ≡ tables) × (s.storage ≡ disk)
  unfolding new_state
  new_state_inv wal tables disk s e = elim (Option-cases (env.parse_u64 wal.0)) [
    | inl bad ↦ absurd (ground (arith, bad, e))
    | inr (n, parsed) ↦
        let state : Layers env = record {
          active = record { wal = wal.1; mem_table = Table.new n rng };
          frozen = tables;
          storage = disk;
        } in
        let here : state ≡ s = ground (arith, parsed, e) in
        (n, rw (← here) refl, rw (← here) refl, rw (← here) refl)
  ]

  new_storage_inv :
      (id : ℕ) (disk : DiskStorage) (tables : List MemTable) (s : Storage env)
      → new_storage env dir rng id disk tables ≡ ok s
      → (n : ℕ) × (s.state.active.mem_table ≡ Table.new n rng)
        × (s.state.frozen ≡ tables)
        × (s.state.storage ≡ disk)
  unfolding new_storage new_writer
  new_storage_inv id disk tables s e =
      let (wal, opened, rest) = bind_inv (dir.open_wal id) _ s e in
      let (state, made, last) = bind_inv (new_state env dir rng wal tables disk) _ s rest in
      let same : state ≡ s.state = ground (arith, last) in
      subst
        (λ (x : Layers env).
          (n : ℕ) × (x.active.mem_table ≡ Table.new n rng)
          × (x.frozen ≡ tables)
          × (x.storage ≡ disk))
        same (new_state_inv wal tables disk state made)

  restore-Below :
      (show : ℕ → Bytes) (files : Files) (restored : Restored)
      → restore env show rng files ≡ ok restored
      → All (IsBelow (restored.max_seq + 1)) restored.tables
  unfolding restore
  restore-Below show files restored e =
      restore_tables-Below env rng (load_wals env show files) restored e

  open_db_inv :
      (show : ℕ → Bytes) (wal_dir tables_dir : Files) (restored : Restored) (disk : DiskStorage)
      (db : Db env)
      → restore env show rng wal_dir ≡ ok restored
      → load env tables_dir ≡ ok disk
      → open_db env dir rng show wal_dir tables_dir ≡ ok db
      → (new_storage env dir rng (next_wal_id env wal_dir) disk restored.tables ≡ ok db.inner)
        × (db.oracle
            ≡ Oracle.new
                (u64 (max disk.max_seq restored.max_seq + 1))
                (u64 (restored.max_tx_id + 1)))
  unfolding open_db
  open_db_inv show wal_dir tables_dir restored disk db r l e = ground (arith, r, l, e)

  -- What readers see at first is above all that the directory holds.
  record IsOpened (db : Db env) : Type 0 where
    sound : IsSound env db
    restored : All (IsBelow db.oracle.visible) db.inner.state.frozen
    loaded :
        AllTables (λ t. t.meta.footer.largest_seq < db.oracle.visible) db.inner.state.storage.tables

  open_db-IsOpened :
      (show : ℕ → Bytes) (wal_dir tables_dir : Files) (restored : Restored) (disk : DiskStorage)
      (db : Db env)
      → restore env show rng wal_dir ≡ ok restored
      → load env tables_dir ≡ ok disk
      → max disk.max_seq restored.max_seq + 2 < 2 ^ 64
      → open_db env dir rng show wal_dir tables_dir ≡ ok db
      → IsOpened db
  unfolding Oracle.new
  open_db-IsOpened show wal_dir tables_dir restored disk db r l bound e =
      let (made, oracle) = open_db_inv show wal_dir tables_dir restored disk db r l e in
      let (n, active, frozen, storage) =
        new_storage_inv (next_wal_id env wal_dir) disk restored.tables db.inner made in
      let next : db.oracle.next_seq ≡ max disk.max_seq restored.max_seq + 2 =
        rw oracle (omega arith) in
      let seen : db.oracle.visible ≡ max disk.max_seq restored.max_seq + 1 =
        rw oracle (omega arith) in
      let below = restore-Below show wal_dir restored r in
      let tables = load-AllTables env tables_dir disk l in
      record {
        sound = record {
          active = rw active (new-IsBelow db.oracle.next_seq n rng);
          frozen = rw frozen (
              AllBelow-up (restored.max_seq + 1) db.oracle.next_seq restored.tables
                (omega (arith, next)) below);
          visible = omega (arith, next, seen);
        };
        restored = rw frozen (
            AllBelow-up (restored.max_seq + 1) db.oracle.visible restored.tables
              (omega (arith, seen)) below);
        loaded = rw storage (AllTables-imp _ _ disk.tables (λ t le. omega (arith, seen)) tables);
      }

  -- The numbers of the commits are those that are next, and later ones.
  run-numbers :
      (low m : ℕ) (es : List Event) (db : Db env) (h : Commits)
      → AllAllowed env dir rng low es db
      → IsSound env db
      → m < db.oracle.next_seq
      → All (λ (c : ℕ × List (Bytes × Value)). m < c.0) h
      → All (λ (c : ℕ × List (Bytes × Value)). m < c.0) (notes env dir rng es db h)
  unfolding notes
  run-numbers low m [] db h a s lt old = old
  run-numbers low m (e ∷ es) db h (a, as') s lt old =
      run-numbers low m es (apply env dir rng e db) (note env dir rng e db h) as'
        (apply-IsSound env dir rng low e db a s) (next_up e a) (noted e)
    where
      next_up :
          (e : Event) → Allowed env dir rng low e db → m < (apply env dir rng e db).oracle.next_seq
      next_up (commits tx_id read_ts buffer) bound =
          let (_, up, _) =
            commit_oracle env tx_id read_ts buffer db.oracle db.inner.state.active bound
              s.visible in
          unfold apply in omega (arith, up)
      next_up begins a = unfold apply Oracle.begin in lt
      next_up (ends read_ts) a = unfold apply Oracle.end in lt
      next_up numbers a = unfold apply next_tx_id in lt
      next_up freezes a = unfold apply in lt
      next_up flushes a = unfold apply in lt

      noted :
          (e : Event) → All (λ (c : ℕ × List (Bytes × Value)). m < c.0) (note env dir rng e db h)
      noted (commits tx_id read_ts buffer) =
          unfold note in
          of_both (All (λ (c : ℕ × List (Bytes × Value)). m < c.0))
            (not (conflicts db.oracle read_ts buffer)
              && enters env tx_id (versions db.oracle.next_seq buffer) db.inner.state.active)
            ((db.oracle.next_seq, buffer) ∷ h) h (lt, old) old
      noted begins = unfold note in old
      noted (ends read_ts) = unfold note in old
      noted numbers = unfold note in old
      noted freezes = unfold note in old
      noted flushes = unfold note in old

  -- A database that was opened, on logs and tables that can be read, whose sequence numbers are not the last,
  -- lets readers see every version in the tables that it restored and, by their footers, in those that it
  -- loaded. Whatever happens to it, in whatever order, all tables in memory are well-formed lists, neither a
  -- version in them nor what readers see is at or above the next sequence number, and every commit has a
  -- number above what the readers saw at first. The sequence numbers do not run out, and tables that are
  -- flushed are readable and small.
  pub run-IsSound_opened :
      (show : ℕ → Bytes) (wal_dir tables_dir : Files) (restored : Restored) (disk : DiskStorage)
      (db : Db env) (low : ℕ) (es : List Event)
      → restore env show rng wal_dir ≡ ok restored
      → load env tables_dir ≡ ok disk
      → max disk.max_seq restored.max_seq + 2 < 2 ^ 64
      → open_db env dir rng show wal_dir tables_dir ≡ ok db
      → AllAllowed env dir rng low es db
      → IsSound env (run env dir rng es db)
        × All (IsBelow db.oracle.visible) db.inner.state.frozen
        × AllTables
            (λ t. t.meta.footer.largest_seq < db.oracle.visible)
            db.inner.state.storage.tables
        × All
            (λ (c : ℕ × List (Bytes × Value)). db.oracle.visible < c.0)
            (notes env dir rng es db [])
  run-IsSound_opened show wal_dir tables_dir restored disk db low es r l bound e a =
      let o = open_db-IsOpened show wal_dir tables_dir restored disk db r l bound e in
      (
        run-IsSound env dir rng low es db a o.sound,
        o.restored,
        o.loaded,
        run-numbers low db.oracle.visible es db [] a o.sound o.sound.visible tt,
      )
