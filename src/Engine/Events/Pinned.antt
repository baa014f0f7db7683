-- ===== src/Engine/Events/Pinned.antt =====
-- What the pointers of a snapshot reach (transaction/src/snapshot.rs, and `state` of `Transaction`): the
-- memory table that was active, to which later commits add until it is frozen; the tables that were frozen;
-- and the disk, which all states share. A later flush adds to the disk and takes no pinned table away.
pub mod Absent
pub mod Frozen
pub mod Held
pub mod Kept
pub mod Reads
use lowdb.Prelude.{Option, none, some, List, [], ◌∷◌}
use lowdb.Common.Error.{ok, err}
use lowdb.Env.{Env}
use lowdb.Memtable.SkipList.{Rng}
use lowdb.Memtable.Table.{MemTable}
use lowdb.Storage.Levels.{Dir, Layers, force_freeze}
use lowdb.Engine.{Db}
use lowdb.Engine.Events.{Event, commits, begins, ends, numbers, freezes, flushes, apply}

-- The memory tables of a state that is held: the table that was active once it is no longer, and those
-- that were frozen.
pub record Pin : Type 0 where
  pub active : Option MemTable
  pub frozen : List MemTable

abbrev pub tables : Pin → List MemTable
tables p = elim p.active [ none ↦ p.frozen | some t ↦ t ∷ p.frozen ]

module _ (env : Env) where
  -- `Storage::snapshot`
  abbrev pub pin : Db env → Pin
  pin db = record { active = none; frozen = db.inner.state.frozen }

  abbrev pub top : Pin → Db env → MemTable
  top p db = elim p.active [ none ↦ db.inner.state.active.mem_table | some t ↦ t ]

  -- The state that is held, at a later time.
  unfoldable pub held : Pin → Db env → Layers env
  held p db = record {
    active = record db.inner.state.active { mem_table = top p db };
    frozen = p.frozen;
    storage = db.inner.state.storage;
  }

  module _ (dir : Dir env) (rng : Rng) where
    -- A freeze that succeeds parts the pinned table from the active one.
    unfoldable pub keep : Event → Db env → Pin → Pin
    keep (commits tx_id read_ts buffer) db p = p
    keep begins db p = p
    keep (ends read_ts) db p = p
    keep numbers db p = p
    keep freezes db p = elim (force_freeze env dir rng db.inner).0 [
      | ok _ ↦ record p { active = some (top p db) }
      | err _ ↦ p
    ]
    keep flushes db p = p

    unfoldable pub keeps : List Event → Db env → Pin → Pin
    keeps [] db p = p
    keeps (e ∷ es) db p = keeps es (apply env dir rng e db) (keep e db p)
