-- ===== src/Sstable/Scan/Compaction/Yields.antt =====
-- What a compaction yields of what its scan yields.
use lowdb.Prelude.{
  ℕ, zero, suc, ◌<◌, ◌≡◌, refl, inl, inr, Bool-cases, Option, none, some, List, [], ◌∷◌, length,
  arith, if◌then◌else◌,
}
use lowdb.Common.Key.{same}
use lowdb.Common.Value.{is_delete}
use lowdb.Common.Error.{DbResult, ok}
use lowdb.Sstable.Table.Layout.{Entry}
use lowdb.Sstable.Scan.Compaction.{CompactionScan, compaction_new, compaction_loop, compaction_next}

-- The first of each run of entries of one user's key, without those that are deleted but for the last.
unfoldable pub compacted_from : Entry → List Entry → List Entry
compacted_from c [] = c ∷ []
compacted_from c (e ∷ es) =
    let same_key = compacted_from c es in
    let rest = compacted_from e es in
    if same c.0.user e.0.user then same_key else (if is_delete c.1 then rest else c ∷ rest)

unfoldable pub compacted : List Entry → List Entry
compacted [] = []
compacted (e ∷ es) = compacted_from e es

-- A scan that steps by `next` yields these entries, and then none.
abbrev pub Yields : {S : Type 0} → (S → DbResult (Option Entry × S)) → S → List Entry → Type 0
Yields {S} next scan [] = (scan' : S) × (next scan ≡ ok (none, scan'))
Yields {S} next scan (e ∷ es) =
    (scan' : S) × (next scan ≡ ok (some e, scan')) × Yields next scan' es

module _ {S : Type 0} (next : S → DbResult (Option Entry × S)) (fuel : ℕ) where
  ended : (scan : S) → Yields (compaction_next next fuel) (record { curr = none; scan = scan }) []
  unfolding compaction_next
  ended scan = (record { curr = none; scan = scan }, refl)

  -- A run of the loop that ends with `r` is followed by what `r` leaves.
  Continues : DbResult (Option Entry × CompactionScan next) → List Entry → Type 0
  Continues r [] = ⊥
  Continues r (e ∷ es) =
      (c : CompactionScan next) × (r ≡ ok (some e, c)) × Yields (compaction_next next fuel) c es

  resumed :
      (e : Entry) (scan : S) (xs : List Entry)
      → Continues (compaction_loop next fuel e scan) xs
      → Yields (compaction_next next fuel) (record { curr = some e; scan = scan }) xs
  unfolding compaction_next Continues
  resumed e scan [] h = absurd h
  resumed e scan (x ∷ xs) h = h

  loop_lem :
      (es : List Entry) (n : ℕ) (c : Entry) (scan : S)
      → length es < n
      → length es < fuel
      → Yields next scan es
      → Continues (compaction_loop next n c scan) (compacted_from c es)
  unfolding compaction_loop compacted_from Continues
  loop_lem es zero c scan h g y = absurd (omega arith)
  loop_lem [] (suc n) c scan h g (scan', e) =
      (record { curr = none; scan = scan' }, rw (compaction_loop, e) refl, ended scan')
  loop_lem (x ∷ es) (suc n) c scan h g (scan', e, y) = elim (Bool-cases (same c.0.user x.0.user)) [
    | inl s ↦
        rw (compaction_loop, e, compacted_from, s)
          (loop_lem es n c scan' (omega arith) (omega arith) y)
    | inr other ↦ elim (Bool-cases (is_delete c.1)) [
      | inl d ↦
          rw (compaction_loop, e, compacted_from, other, d)
            (loop_lem es n x scan' (omega arith) (omega arith) y)
      | inr kept ↦
          rw (compaction_loop, e, compacted_from, other, kept)
            (
              record { curr = some x; scan = scan' },
              refl,
              resumed x scan' (compacted_from x es)
                  (loop_lem es fuel x scan' (omega arith) (omega arith) y),
            )
    ]
  ]

  -- Where a scan yields entries, fewer than the fuel, a compaction of it starts without an error and
  -- yields the first entry of each run of entries of one user's key, in order, without those that are
  -- deletions but for the last of all.
  pub compaction-Yields :
      (scan : S) (es : List Entry)
      → length es < suc fuel
      → Yields next scan es
      → (c : CompactionScan next) × (compaction_new next scan ≡ ok c)
        × Yields (compaction_next next fuel) c (compacted es)
  unfolding compaction_new compacted
  compaction-Yields scan [] h (scan', e) =
      (record { curr = none; scan = scan' }, rw (compaction_new, e) refl, ended scan')
  compaction-Yields scan (x ∷ es) h (scan', e, y) = (
    record { curr = some x; scan = scan' },
    rw (compaction_new, e) refl,
    resumed x scan' (compacted_from x es) (loop_lem es fuel x scan' (omega arith) (omega arith) y),
  )
