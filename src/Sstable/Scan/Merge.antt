-- ===== src/Sstable/Scan/Merge.antt =====
-- sstable/src/scan/merge.rs. The heap of the standard library is the list of what it holds in the order
-- in which it is popped.
use lowdb.Prelude.{
  ℕ, zero, suc, compare, Ordering, Option, none, some, List, [], ◌∷◌, length, get_elem?, get_or,
  set, replicate, if◌then◌else◌,
}
use lowdb.Common.Key.{Key, cmp, then_with, is_less}
use lowdb.Common.Value.{Value}
use lowdb.Common.Error.{DbResult, ok, err, invalid_state, ◌>>=◌}
use lowdb.Env.{Env}
use lowdb.Sstable.Scan.Table.{TableScan, scan_next}

pub record HeapKey : Type 0 where
  pub key : Key
  pub idx : ℕ

-- `Ord for HeapKey`
unfoldable pub cmp_heap : HeapKey → HeapKey → Ordering
cmp_heap a b = then_with (cmp a.key b.key) (compare a.idx b.idx)

-- `BinaryHeap::push`
unfoldable pub heap_push : HeapKey → List HeapKey → List HeapKey
heap_push x [] = x ∷ []
heap_push x (y ∷ ys) = if is_less (cmp_heap y x) then y ∷ heap_push x ys else x ∷ y ∷ ys

pub record MergeScan : Type 0 where
  pub scans : List TableScan
  pub pending : List (Option Value)
  pub heap : List HeapKey

module _ (env : Env) where
  -- `advance`, of a scan that is there
  unfoldable pub advance_scan : ℕ → TableScan → MergeScan → DbResult MergeScan
  advance_scan i scan m = scan_next env scan >>= λ step. elim step.0 [
    | none ↦ ok (record m { scans = set m.scans i step.1; pending = set m.pending i none })
    | some e ↦ ok (record m {
      scans = set m.scans i step.1;
      pending = set m.pending i (some e.1);
      heap = heap_push (record { key = e.0; idx = i }) m.heap;
    })
  ]

  -- Indexing out of bounds panics; no index of a heap is.
  unfoldable pub advance : ℕ → MergeScan → DbResult MergeScan
  advance i m = elim (get_elem? m.scans i) [
    | none ↦ err invalid_state
    | some scan ↦ advance_scan i scan m
  ]

  -- the loop of `new` over the indices from `i`, `n` of them
  unfoldable pub advance_from : ℕ → ℕ → MergeScan → DbResult MergeScan
  advance_from zero i m = ok m
  advance_from (suc n) i m = do m ← advance i m; advance_from n (suc i) m

  unfoldable pub merge_new : List TableScan → DbResult MergeScan
  merge_new scans =
      let n = length scans in
      advance_from n 0 (record { scans = scans; pending = replicate n none; heap = [] })

  unfoldable pub merge_next : MergeScan → DbResult (Option (Key × Value) × MergeScan)
  merge_next m = elim m.heap [
    | [] ↦ ok (none, m)
    | x ∷ heap ↦ elim (get_or m.pending x.idx none) [
      | none ↦ err invalid_state
      | some v ↦ do
        m ← advance x.idx (record m { pending = set m.pending x.idx none; heap = heap })
        ok (some (x.key, v), m)
    ]
  ]
