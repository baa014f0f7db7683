-- ===== src/Storage/Levels/Freeze.antt =====
-- Freezing the active memory table.
use lowdb.Prelude.{◌≡◌, refl, ap, ◌∙◌, Option, none, some, ℕ, arith, ◌+◌, ◌%◌, ◌^◌}
use lowdb.Prelude.Bytes.{Bytes}
use lowdb.Common.Lookup.{Lookup, found, deleted, absent}
use lowdb.Common.Error.{DbResult, ok, err}
use lowdb.Env.{Env}
use lowdb.Memtable.SkipList.{Rng}
use lowdb.Memtable.Sorted.{lookup_entry}
use lowdb.Memtable.Table
use lowdb.Memtable.Table.{MemTable}
use lowdb.Memtable.Table.Reads.{says, get_snap_lem, iter-new}
use lowdb.Storage.Levels.{
  Dir, Layers, Storage, get_frozen, get_snap, replace_active, force_freeze, freeze_parsed,
  freeze_opened, new_writer,
}

-- The first answer of two layers that are asked in turn.
abbrev pub or_lookup : Lookup → Lookup → Lookup
or_lookup (found v) rest = found v
or_lookup deleted rest = deleted
or_lookup absent rest = rest

pub new_absent :
    (id : ℕ) (rng : Rng) (key : Bytes) (seq : ℕ)
    → Table.get_snap (Table.new id rng) key seq ≡ absent
unfolding lookup_entry
new_absent id rng key seq =
    let (valid, e) = iter-new id rng in
    get_snap_lem (Table.new id rng) key seq valid ∙ ap (λ es. says (lookup_entry key seq es)) e

module _ (env : Env) where
  get_snap-replace_active :
      (dir : Dir env) (rng : Rng) (id : ℕ) (wal : env.BufWriter) (s : Layers env) (key : Bytes)
      (seq : ℕ)
      → get_snap env (replace_active env dir rng id wal s) key seq ≡ get_snap env s key seq
  unfolding get_snap replace_active get_frozen
  get_snap-replace_active dir rng id wal s key seq =
      rw (get_snap, replace_active, new_absent id rng key seq, get_frozen) (ground (arith))

  get_snap-freeze_parsed :
      (dir : Dir env) (rng : Rng) (id : Option ℕ) (wal : env.BufWriter) (s : Storage env)
      (key : Bytes) (seq : ℕ)
      → get_snap env (freeze_parsed env dir rng id wal s).1.state key seq
        ≡ get_snap env s.state key seq
  unfolding freeze_parsed
  get_snap-freeze_parsed dir rng none wal s key seq = refl
  get_snap-freeze_parsed dir rng (some id) wal s key seq =
      get_snap-replace_active dir rng id wal s.state key seq

  get_snap-freeze_opened :
      (dir : Dir env) (rng : Rng) (opened : DbResult (Bytes × env.BufWriter)) (s : Storage env)
      (key : Bytes) (seq : ℕ)
      → get_snap env (freeze_opened env dir rng opened s).1.state key seq
        ≡ get_snap env s.state key seq
  unfolding freeze_opened
  get_snap-freeze_opened dir rng (err e) s key seq = refl
  get_snap-freeze_opened dir rng (ok wal) s key seq =
      get_snap-freeze_parsed dir rng (env.parse_u64 wal.0) wal.1 s key seq

  -- Freezing the active table, whether it succeeds or not, changes no read at any snapshot.
  pub get_snap-force_freeze :
      (dir : Dir env) (rng : Rng) (s : Storage env) (key : Bytes) (seq : ℕ)
      → get_snap env (force_freeze env dir rng s).1.state key seq ≡ get_snap env s.state key seq
  unfolding force_freeze new_writer
  get_snap-force_freeze dir rng s key seq =
      get_snap-freeze_opened dir rng (dir.open_wal s.wal_id)
        (record s { wal_id = (s.wal_id + 1) % 2 ^ 64 }) key seq
