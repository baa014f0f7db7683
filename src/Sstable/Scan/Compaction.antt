-- ===== src/Sstable/Scan/Compaction.antt =====
-- sstable/src/scan/compaction.rs and `compact` (sstable/src/scan.rs). The loops run on fuel.
pub mod Yields
pub mod Kept
pub mod Live
use lowdb.Prelude.{
  ℕ, zero, suc, Bool, true, false, not, Option, none, some, ◌&&◌, if◌then◌else◌, List, [], ◌∷◌,
}
use lowdb.Common.Key.{Key, same}
use lowdb.Common.Value.{Value, is_delete}
use lowdb.Common.Error.{DbResult, ok, err, invalid_state, ◌>>=◌}
use lowdb.Env.{Env}
use lowdb.Sstable.Scan.Merge.{MergeScan, merge_next, merge_new}
use lowdb.Sstable.Scan.Table.{TableScan}
use lowdb.Sstable.Table.{SsTableMeta}
use lowdb.Sstable.Writer.{SsTableWriter, Act, add, finish, create}

-- A compaction of any scan: a state, and how it steps.
module _ {S : Type 0} (next : S → DbResult (Option (Key × Value) × S)) where
  pub record CompactionScan : Type 0 where
    pub curr : Option (Key × Value)
    pub scan : S

  unfoldable pub compaction_new : S → DbResult CompactionScan
  compaction_new scan = do (curr, scan) ← next scan; ok (record { curr = curr; scan = scan })

  -- the loop of `next`, with an entry in `curr`
  unfoldable pub compaction_loop :
      ℕ → Key × Value → S → DbResult (Option (Key × Value) × CompactionScan)
  compaction_loop zero curr scan = err invalid_state
  compaction_loop (suc n) curr scan = next scan >>= λ step. elim step.0 [
    | none ↦ ok (some curr, record { curr = none; scan = step.1 })
    | some e ↦
        let same_key = compaction_loop n curr step.1 in
        let dropped = compaction_loop n e step.1 in
        if same curr.0.user e.0.user
        then same_key
        else if is_delete curr.1
        then dropped
        else ok (some curr, record { curr = some e; scan = step.1 })
  ]

  unfoldable pub compaction_next :
      ℕ → CompactionScan → DbResult (Option (Key × Value) × CompactionScan)
  compaction_next n c = elim c.curr [
    | none ↦ ok (none, c)
    | some curr ↦ compaction_loop n curr c.scan
  ]

module _ (env : Env) where
  abbrev Merged : Type 0
  Merged = CompactionScan (merge_next env)

  -- the loop of `compact`
  unfoldable pub compact_loop :
      ℕ → ℕ → Merged → SsTableWriter env → DbResult (Unit {0}) × SsTableWriter env
  compact_loop zero fuel c w = (err invalid_state, w)
  compact_loop (suc n) fuel c w = elim (compaction_next (merge_next env) fuel c) [
    | err e ↦ (err e, w)
    | ok step ↦ elim step.0 [
      | none ↦ (ok tt, w)
      | some e ↦
          let (added, w') = add env e.0 e.1 w in
          let rest = compact_loop n fuel step.1 w' in
          elim added [ err e ↦ (err e, w') | ok _ ↦ rest ]
    ]
  ]

  unfoldable pub compact :
      ℕ → env.BufWriter → List TableScan → DbResult (Option SsTableMeta) × env.BufWriter
  compact fuel out inputs = elim (merge_new env inputs >>= compaction_new (merge_next env)) [
    | err e ↦ (err e, out)
    | ok c ↦
        let (r, w) = compact_loop fuel fuel c (create env out) in
        elim r [ err e ↦ (err e, w.file) | ok _ ↦ finish env w ]
  ]
