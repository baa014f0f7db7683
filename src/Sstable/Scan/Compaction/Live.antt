-- ===== src/Sstable/Scan/Compaction/Live.antt =====
-- A compaction changes no read of the newest versions.
use lowdb.Prelude.{
  ℕ, suc, length, ◌<◌, ◌≤◌, ◌≡◌, refl, ap, sym, ◌∙◌, inl, inr, Bool-cases, true, false, Ordering,
  Ordering-cases, Option, none, some, List, [], ◌∷◌, All, arith,
}
use lowdb.Prelude.Bytes.{Bytes}
use lowdb.Common.Key.{Key, cmp, cmp_str, same}
use lowdb.Common.Key.Order.{eq_of_cmp_str, cmp_str-flip, cmp_str_trans, flip}
use lowdb.Common.Lookup.{Lookup, found, deleted, absent}
use lowdb.Common.Value.{set, delete, is_delete}
use lowdb.Memtable.Sorted.{IsAscending, lookup_entry}
use lowdb.Memtable.Table.Reads.{says}
use lowdb.Sstable.Table.Layout.{Entry}
use lowdb.Sstable.Scan.Compaction.{CompactionScan, compaction_new, compaction_next}
use lowdb.Sstable.Scan.Compaction.Yields.{compacted_from, compacted, Yields, compaction-Yields}
use lowdb.Common.Error.{DbResult, ok}
use lowdb.Storage.Disk.Newest.{found_here, passed, stopped}

-- What the database returns for the answer of a lookup.
abbrev pub live : Lookup → Option Bytes
live (found v) = some v
live deleted = none
live absent = none

later_user :
    (c x : Key)
    → cmp c x ≡ Ordering.lt
    → same c.user x.user ≡ false
    → cmp_str c.user x.user ≡ Ordering.lt
unfolding cmp
later_user c x h other = ground (arith, h, other)

-- Behind an entry at or behind a user's key, one of a later user's key is none of it.
behind_user :
    (c x : Key) (user : Bytes)
    → cmp_str c.user x.user ≡ Ordering.lt
    → flip (cmp_str c.user user) ≡ Ordering.lt
    → cmp_str x.user user ≡ Ordering.gt
behind_user c x user lt h =
    let before : cmp_str user c.user ≡ Ordering.lt = cmp_str-flip c.user user ∙ h in
    let all = cmp_str_trans user c.user x.user before lt in cmp_str-flip user x.user ∙ ap flip all

module _ (user : Bytes) (s : ℕ) where
  abbrev read : List Entry → Option Bytes
  read es = live (says (lookup_entry user s es))

  -- Entries behind the first matter where the first is of a lower user's key.
  read_first :
      (c : Entry) (xs ys : List Entry)
      → c.0.seq ≤ s
      → (cmp_str c.0.user user ≡ Ordering.lt → read xs ≡ read ys)
      → read (c ∷ xs) ≡ read (c ∷ ys)
  unfolding lookup_entry
  read_first (k, v) xs ys seen h = elim (Ordering-cases (cmp_str k.user user)) [
    | inl lt ↦ rw (passed user s k v xs lt, passed user s k v ys lt) (h lt)
    | inr (inl eq) ↦
        let here = eq_of_cmp_str k.user user eq in
        rw (found_here user s k v xs seen here, found_here user s k v ys seen here) refl
    | inr (inr gt) ↦ rw (stopped user s k v xs gt, stopped user s k v ys gt) refl
  ]

  -- A deletion in front of a later user's key reads as if it were not there.
  read_deleted :
      (c x : Entry) (es : List Entry)
      → c.0.seq ≤ s
      → is_delete c.1 ≡ true
      → cmp_str c.0.user x.0.user ≡ Ordering.lt
      → read (x ∷ es) ≡ read (c ∷ x ∷ es)
  unfolding lookup_entry
  read_deleted (k, set v) (j, w) es seen d lt = unfold is_delete in absurd (cc)
  read_deleted (k, delete) (j, w) es seen d lt = elim (Ordering-cases (cmp_str k.user user)) [
    | inl l ↦ rw (passed user s k delete ((j, w) ∷ es) l) refl
    | inr (inl eq) ↦
        let here = eq_of_cmp_str k.user user eq in
        let gt : cmp_str j.user user ≡ Ordering.gt =
          cmp_str-flip user j.user ∙ ap flip (rw here at lt) in
        rw (found_here user s k delete ((j, w) ∷ es) seen here, stopped user s j w es gt) refl
    | inr (inr g) ↦
        let gt = behind_user k j user lt (ap flip g) in
        rw (stopped user s k delete ((j, w) ∷ es) g, stopped user s j w es gt) refl
  ]

  Visible : List Entry → Type 0
  Visible es = All (λ (e : Entry). e.0.seq ≤ s) es

  read-compacted_from :
      (c : Entry) (es : List Entry)
      → IsAscending (c ∷ es)
      → Visible (c ∷ es)
      → read (compacted_from c es) ≡ read (c ∷ es)
  unfolding compacted_from Visible
  read-compacted_from c [] asc vis = refl
  read-compacted_from c (x ∷ es) ((low, lows), (xs, asc)) (seen, (seen_x, vis)) =
      elim (Bool-cases (same c.0.user x.0.user)) [
        | inl e ↦
            let user_of : c.0.user ≡ x.0.user =
              eq_of_cmp_str c.0.user x.0.user (ground (arith, e)) in
            rw (compacted_from, e)
              (read-compacted_from c es (lows, asc) (seen, vis)
                ∙ read_first c es (x ∷ es) seen (λ lt.
                  ap (λ r. live (says r)) (sym (passed user s x.0 x.1 es (rw user_of at lt)))))
        | inr other ↦
            let lt = later_user c.0 x.0 low other in
            let rest = read-compacted_from x es (xs, asc) (seen_x, vis) in
            elim (Bool-cases (is_delete c.1)) [
              | inl d ↦ rw (compacted_from, other, d) (rest ∙ read_deleted c x es seen d lt)
              | inr kept ↦
                  rw (compacted_from, other, kept)
                    (read_first c (compacted_from x es) (x ∷ es) seen (λ _. rest))
            ]
      ]

  -- Of entries in ascending order that the snapshot may see, a read of what a compaction leaves of them gives
  -- the value that a read of all of them gives, or none where that gives none.
  pub read-compacted :
      (es : List Entry)
      → IsAscending es
      → All (λ (e : Entry). e.0.seq ≤ s) es
      → live (says (lookup_entry user s (compacted es))) ≡ live (says (lookup_entry user s es))
  unfolding compacted Visible
  read-compacted [] asc vis = refl
  read-compacted (e ∷ es) asc vis = read-compacted_from e es asc vis

-- Where a scan yields entries in ascending order, fewer than the fuel, a compaction of it starts without an
-- error and yields entries whose reads, at a snapshot that may see all of the scan, give the same value for
-- each user's key, or none where those of the scan give none.
pub compaction_reads :
    {S : Type 0} (next : S → DbResult (Option Entry × S)) (fuel : ℕ) (scan : S) (es : List Entry)
    (s : ℕ)
    → length es < suc fuel
    → Yields next scan es
    → IsAscending es
    → All (λ (e : Entry). e.0.seq ≤ s) es
    → (c : CompactionScan next) × ((ys : List Entry) × ((compaction_new next scan ≡ ok c)
          × Yields (compaction_next next fuel) c ys
          × ((user : Bytes)
              → live (says (lookup_entry user s ys)) ≡ live (says (lookup_entry user s es)))))
compaction_reads next fuel scan es s few y asc vis =
    let (c, started, yields) = compaction-Yields next fuel scan es few y in
    (c, (compacted es, (started, yields, λ user. read-compacted user s es asc vis)))
