-- ===== src/Engine/Events/Pinned/Frozen.antt =====
-- The two outcomes of a freeze (`force_freeze`, storage/src/lib.rs).
use lowdb.Prelude.{ℕ, ◌+◌, ◌%◌, ◌^◌, ◌≡◌, refl, ◌⊎◌, inl, inr, Option, none, some, [], ◌∷◌}
use lowdb.Prelude.Bytes.{Bytes}
use lowdb.Common.Error.{DbError, DbResult, ok, err, invalid_value}
use lowdb.Env.{Env}
use lowdb.Memtable.SkipList.{Rng}
use lowdb.Memtable.Table
use lowdb.Memtable.Table.Reads.{iter-new}
use lowdb.Storage.Levels.{
  Dir, Storage, force_freeze, freeze_opened, freeze_parsed, new_writer, replace_active,
}

module _ (env : Env) where
  -- A freeze has put the active table in front of the frozen ones and started an empty one, or has failed
  -- and left the layers as they were.
  abbrev pub IsFrozen : Storage env → DbResult (Unit {0}) × Storage env → Type 0
  IsFrozen s (r, s') =
      ((r ≡ ok tt)
        × (Table.iter s'.state.active.mem_table ≡ [])
        × (s'.state.frozen ≡ s.state.active.mem_table ∷ s.state.frozen)
        × (s'.state.storage ≡ s.state.storage))
      ⊎ ((e : DbError) × (r ≡ err e) × (s'.state ≡ s.state))

  freeze_parsed-IsFrozen :
      (dir : Dir env) (rng : Rng) (id : Option ℕ) (wal : env.BufWriter) (s : Storage env)
      → IsFrozen s (freeze_parsed env dir rng id wal s)
  unfolding freeze_parsed replace_active
  freeze_parsed-IsFrozen dir rng none wal s = inr (invalid_value, refl, refl)
  freeze_parsed-IsFrozen dir rng (some id) wal s = inl (refl, (iter-new id rng).1, refl, refl)

  freeze_opened-IsFrozen :
      (dir : Dir env) (rng : Rng) (opened : DbResult (Bytes × env.BufWriter)) (s : Storage env)
      → IsFrozen s (freeze_opened env dir rng opened s)
  unfolding freeze_opened
  freeze_opened-IsFrozen dir rng (err e) s = inr (e, refl, refl)
  freeze_opened-IsFrozen dir rng (ok wal) s =
      freeze_parsed-IsFrozen dir rng (env.parse_u64 wal.0) wal.1 s

  pub force_freeze-IsFrozen :
      (dir : Dir env) (rng : Rng) (s : Storage env) → IsFrozen s (force_freeze env dir rng s)
  unfolding force_freeze new_writer
  force_freeze-IsFrozen dir rng s =
      freeze_opened-IsFrozen dir rng (dir.open_wal s.wal_id)
        (record s { wal_id = (s.wal_id + 1) % 2 ^ 64 })
