-- ===== src/Storage/Levels/Drain.antt =====
-- Flushing all frozen tables.
use lowdb.Prelude.{
  ℕ, zero, suc, ◌<◌, ◌≡◌, refl, ap, sym, subst, Bool, true, false, Option, none, some, List, [],
  ◌∷◌, ◌++◌, length, length-append, arith,
}
use lowdb.Common.Error.{DbResult, ok, err}
use lowdb.Env.{Env}
use lowdb.Memtable.SkipList.{Rng}
use lowdb.Memtable.Table.{MemTable}
use lowdb.Storage.Disk.{l0}
use lowdb.Storage.Levels.{
  Dir, Storage, split_last, retire_flushed, remove_log, flush_oldest, after_flush, flush_frozen,
}
use lowdb.Storage.Levels.Placed.{split_last-some, split_last-none}

module _ (env : Env) (dir : Dir env) (rng : Rng) where
  -- A round that goes on has taken a table from the list; one that ends has found it empty.
  abbrev Round : Storage env → DbResult Bool × Storage env → Type 0
  Round s (err e, s') = Unit
  Round s (ok true, s') = suc (length s'.state.frozen) ≡ length s.state.frozen
  Round s (ok false, s') = s'.state.frozen ≡ []

  removed-Round :
      (r : DbResult (Unit {0})) (s s1 : Storage env)
      → suc (length s1.state.frozen) ≡ length s.state.frozen
      → Round s (elim r [ err e ↦ (err e, s1) | ok _ ↦ (ok true, s1) ])
  removed-Round (err e) s s1 h = tt
  removed-Round (ok _) s s1 h = h

  retired-Round :
      (r : DbResult Bool) (disk : lowdb.Storage.Disk.DiskStorage) (p : List MemTable × MemTable)
      (s : Storage env)
      → s.state.frozen ≡ p.0 ++ p.1 ∷ []
      → Round s (retire_flushed env dir rng r disk p.0 p.1.id s)
  unfolding retire_flushed
  retired-Round (err e) disk p s h = tt
  retired-Round (ok b) disk p s h =
      removed-Round (remove_log env dir rng p.1.id) s
        (record s { state = record s.state { storage = disk; frozen = p.0 } })
        (omega (arith, ap length h, length-append p.0 (p.1 ∷ [])))

  split-Round :
      (s : Storage env) (o : Option (List MemTable × MemTable))
      → split_last s.state.frozen ≡ o
      → flush_oldest env dir rng s ≡ elim o [
        | none ↦ (ok false, s)
        | some p ↦
            let (written, disk) =
              l0 env (dir.create_table s.state.storage.id) p.1 s.state.storage in
            retire_flushed env dir rng written disk p.0 p.1.id s
      ]
      → Round s (flush_oldest env dir rng s)
  split-Round s none h e = subst (Round s) (sym e) (split_last-none s.state.frozen h)
  split-Round s (some p) h e =
      let (written, disk) = l0 env (dir.create_table s.state.storage.id) p.1 s.state.storage in
      subst (Round s) (sym e) (retired-Round written disk p s (split_last-some s.state.frozen p h))

  flush_oldest-Round : (s : Storage env) → Round s (flush_oldest env dir rng s)
  unfolding flush_oldest
  flush_oldest-Round s = split-Round s (split_last s.state.frozen) refl refl

  after_flush_empties :
      (n : ℕ) (s : Storage env) (r : DbResult Bool) (s' : Storage env)
      → Round s (r, s')
      → length s.state.frozen < suc n
      → (length s'.state.frozen < n
          → (flush_frozen env dir rng n s').0 ≡ ok tt
          → (flush_frozen env dir rng n s').1.state.frozen ≡ [])
      → (after_flush env dir rng r s' (flush_frozen env dir rng n s')).0 ≡ ok tt
      → (after_flush env dir rng r s' (flush_frozen env dir rng n s')).1.state.frozen ≡ []
  unfolding after_flush
  after_flush_empties n s (err e) s' round few rest h = absurd (cc)
  after_flush_empties n s (ok true) s' round few rest h = rest (omega (arith, round)) h
  after_flush_empties n s (ok false) s' round few rest h = round

  -- Where `flush_frozen` returns without an error no frozen table is left: fuel above their number is enough
  -- for all its rounds.
  pub flush_frozen_empties :
      (n : ℕ) (s : Storage env)
      → length s.state.frozen < n
      → (flush_frozen env dir rng n s).0 ≡ ok tt
      → (flush_frozen env dir rng n s).1.state.frozen ≡ []
  unfolding flush_frozen
  flush_frozen_empties zero s few h = absurd (omega arith)
  flush_frozen_empties (suc n) s few h =
      let (r, s') = flush_oldest env dir rng s in
      after_flush_empties n s r s' (flush_oldest-Round s) few (flush_frozen_empties n s') h
