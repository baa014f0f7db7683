-- ===== src/Memtable/SkipList/Lookup.antt =====
-- The operations of the list as its users see them: `insert`, `get_entry_at`, `get_at` and `iter` on
-- the entries in order.
use lowdb.Prelude.{
  get_or-replicate, ℕ, zero, suc, ◌<◌, ◌≤◌, ◌≡◌, refl, ap, sym, ◌∙◌, Bool, true, false, not, List,
  [], ◌∷◌, ◌++◌, length, length-append, All, All-imp, All-split, arith, none, inl, inr, Bool-cases,
  map-append, lt→ltb, get_elem?-some,
}
use lowdb.Prelude.Bytes.{Bytes}
use lowdb.Common.Key.{Key}
use lowdb.Common.Value.{Value}
use lowdb.Memtable.Sorted.{
  IsAscending, insert_entry, has_key, has_key-append_low, insert_entry_known, lookup_entry,
  lookup_entry-append_low,
}
use lowdb.Memtable.SkipList.{
  Ptr, Node, SkipList, Rng, new, load, is_at, find, raise, insert, insert_raised, with_node, alloc,
  no_nodes, link, max_levels, entry_at, get_entry_at, iter_from, iter, rounds,
}
use lowdb.Memtable.SkipList.Chain.{Linked, first_tall}
use lowdb.Memtable.SkipList.Memory.{height, tall}
use lowdb.Memtable.SkipList.Search.{IsOrderOf, entries_of, IsHigh, find_lem, seek_lem}
use lowdb.Memtable.SkipList.Cut.{IsCut, cut, cmp_at-entry}
use lowdb.Memtable.SkipList.Height.{random_height_bounds}
use lowdb.Memtable.SkipList.Insert.{
  raise-IsOrderOf, is_at-first, lows-AllLow, IsInserted, link-IsInserted,
}

module _ (s : SkipList) (order : List ℕ) (valid : IsOrderOf s order) (key : Key) where
  c : IsCut s key.user key.seq order
  c = cut s key.user key.seq order valid.within valid.ascending

  parts_within : All (λ a. a < length s.heap) (c.before ++ c.after)
  parts_within = rw c.whole valid.within

  parts_heights : All (λ a. (1 ≤ height s a) × (height s a ≤ s.max_height)) (c.before ++ c.after)
  parts_heights = rw c.whole valid.heights

  parts-Linked : (j : ℕ) → Linked (tall s j) (λ p. load s p j) none (c.before ++ c.after)
  parts-Linked j = rw c.whole (valid.linked j)

  before_short : length c.before ≤ length s.heap
  before_short = omega (arith, ap length c.whole, valid.all_nodes, length-append c.before c.after)

  tall_after : All (λ a. 1 ≤ height s a) c.after
  tall_after =
      All-imp _ _ (λ a (b : (1 ≤ height s a) × (height s a ≤ s.max_height)). b.0) c.after
        (All-split _ c.before c.after parts_heights).1

  low_entries : has_key key (entries_of s.heap order) ≡ has_key key (entries_of s.heap c.after)
  low_entries =
      ap (has_key key) (ap (entries_of s.heap) (sym c.whole) ∙ map-append _ c.before c.after)
      ∙ has_key-append_low key (entries_of s.heap c.before) (entries_of s.heap c.after)
          (lows-AllLow s key c.before (All-split _ c.before c.after parts_within).0 c.lows)

  -- `find` tells whether the key is there.
  found_lem :
      (ps cs : List Ptr)
      → s.max_height ≤ length ps
      → s.max_height ≤ length cs
      → (find s key.user key.seq ps cs).0 ≡ has_key key (entries_of s.heap order)
  unfolding find
  found_lem ps cs hp hc =
      ap (λ (p : Ptr). is_at s p key.user key.seq)
        ((find_lem s key.user key.seq c.before c.after c.lows c.highs parts-Linked before_short ps
          cs 0 (omega (arith, valid.top)) hp hc).1)
      ∙ is_at-first s key c.after (All-split _ c.before c.after parts_within).1 tall_after c.highs
      ∙ sym low_entries

  get_entry_at_order :
      get_entry_at s key.user key.seq ≡ lookup_entry key.user key.seq (entries_of s.heap order)
  unfolding get_entry_at
  get_entry_at_order =
      ap (λ (p : Ptr). entry_at s p key.user)
        (seek_lem s key.user key.seq c.before c.after c.lows c.highs parts-Linked before_short
          valid.top.0)
      ∙ first_entry c.after (All-split _ c.before c.after parts_within).1 tall_after c.highs
      ∙ sym (
          ap (lookup_entry key.user key.seq)
            (ap (entries_of s.heap) (sym c.whole) ∙ map-append _ c.before c.after)
          ∙ lookup_entry-append_low key.user key.seq (entries_of s.heap c.before)
              (entries_of s.heap c.after)
              (lows-AllLow s key c.before (All-split _ c.before c.after parts_within).0 c.lows))
    where
      first_entry :
          (xs : List ℕ)
          → All (λ a. a < length s.heap) xs
          → All (λ a. 1 ≤ height s a) xs
          → All (IsHigh s key.user key.seq) xs
          → entry_at s (first_tall (tall s 0) xs) key.user
            ≡ lookup_entry key.user key.seq (entries_of s.heap xs)
      first_entry [] w t h = unfold entry_at first_tall lookup_entry in refl
      first_entry (a ∷ xs) w t h =
          unfold entry_at first_tall lookup_entry in
          rw (lt→ltb 0 (height s a) t.0) (
            ground (arith, cmp_at-entry s a key.user key.seq w.0, h.0, get_elem?-some s.heap a w.0))

iter_from_lem :
    (s : SkipList) (fuel : ℕ) {p : Ptr} (xs : List ℕ)
    → Linked (tall s 0) (λ q. load s q 0) p xs
    → All (λ a. a < length s.heap) xs
    → All (λ a. 1 ≤ height s a) xs
    → length xs < fuel
    → iter_from s fuel (load s p 0) ≡ entries_of s.heap xs
unfolding iter_from
iter_from_lem s zero xs l w t h = elim h [ ]
iter_from_lem s (suc fuel) [] (Linked.end e) w t h = rw e
iter_from_lem s (suc fuel) (a ∷ xs) (Linked.step u e l) w t h =
    let rest = iter_from_lem s fuel xs l w.1 t.1 (omega arith) in
    rw e (ground (arith, rest, get_elem?-some s.heap a w.0))
iter_from_lem s (suc fuel) (a ∷ xs) (Linked.skip u l) w t h = ground (arith, t.0)

-- A list in which some order of its nodes satisfies `IsOrderOf`.
abbrev pub IsValid : SkipList → Type 0
IsValid s = (order : List ℕ) × IsOrderOf s order

iter_order : (s : SkipList) (order : List ℕ) → IsOrderOf s order → iter s ≡ entries_of s.heap order
unfolding iter
iter_order s order v =
    iter_from_lem s (rounds s) order (v.linked 0) v.within
      (All-imp _ _ (λ a (b : (1 ≤ height s a) × (height s a ≤ s.max_height)). b.0) order v.heights)
      (omega (arith, v.all_nodes))

module _ (s : SkipList) (order : List ℕ) (v : IsOrderOf s order) (key : Key) (value : Value) (h : ℕ)
    (lo : 1 ≤ h) (hi : h ≤ s.max_height) where
  abbrev reported : Bool
  reported = (find s key.user key.seq no_nodes no_nodes).0

  found : reported ≡ has_key key (entries_of s.heap order)
  found = found_lem s order v key no_nodes no_nodes v.top.1 v.top.1

  -- the arrays that `find` fills
  abbrev arrays : List Ptr × List Ptr
  arrays = (find s key.user key.seq no_nodes no_nodes).1

  linked :
      has_key key (entries_of s.heap order) ≡ false
      → IsInserted key value
          (entries_of s.heap order)
          (link h 0 arrays.0 arrays.1 (length s.heap) (with_node s (alloc key value h)))
  linked fresh =
      let k = c s order v key in
      let neighbours = λ (j : ℕ) (hj : j < h).
        find_lem s key.user key.seq k.before k.after k.lows k.highs (parts-Linked s order v key)
          (before_short s order v key) no_nodes no_nodes j (omega arith) v.top.1 v.top.1 in
      link-IsInserted s key value h order v lo hi k (sym (low_entries s order v key) ∙ fresh)
        arrays.0 arrays.1 (λ j hj. (neighbours j hj).0) (λ j hj. (neighbours j hj).1)

  insert_raised_lem :
      IsInserted key value (entries_of s.heap order) (insert_raised key value h s).1
      × ((insert_raised key value h s).0 ≡ not (has_key key (entries_of s.heap order)))
  unfolding insert_raised
  insert_raised_lem = elim (Bool-cases (has_key key (entries_of s.heap order))) [
    | inl known ↦
        let exact : reported ≡ true = found ∙ known in
        let kept : IsInserted key value (entries_of s.heap order) s = record {
          order = order;
          valid = v;
          entries = sym (insert_entry_known key value _ known);
        } in
        rw (exact, known) (kept, refl)
    | inr fresh ↦
        let exact : reported ≡ false = found ∙ fresh in rw (exact, fresh) (linked fresh, refl)
  ]

insert_order :
    (s : SkipList) (order : List ℕ) (key : Key) (value : Value)
    → IsOrderOf s order
    → IsInserted key value (entries_of s.heap order) (insert key value s).1
      × ((insert key value s).0 ≡ not (has_key key (entries_of s.heap order)))
unfolding insert raise
insert_order s order key value v =
    let (lo, hi) = random_height_bounds s.rng in
    insert_raised_lem (raise s).1 order (raise-IsOrderOf s order v) key value (raise s).0 lo
      (omega arith)

-- A new list is well formed and has no entries.
pub new-IsValid : (r : Rng) → IsValid (new r)
unfolding new load
new-IsValid r = (
  [],
  record {
    head_levels = refl;
    top = omega arith;
    all_nodes = refl;
    within = tt;
    heights = tt;
    ascending = tt;
    linked = λ level. Linked.end (get_or-replicate max_levels level none);
    counted = refl;
  },
)

-- `insert` keeps a well-formed list well formed, whatever height it draws.
pub insert-IsValid :
    (s : SkipList) (key : Key) (value : Value) → IsValid s → IsValid (insert key value s).1
insert-IsValid s key value (order, v) =
    let r = (insert_order s order key value v).0 in (r.order, r.valid)

-- On a well-formed list, iteration after `insert` gives the entries from before with the new one
-- in its place by the order of the keys, or the same entries where the key and its sequence number
-- were there; `insert` reports which.
pub iter-insert :
    (s : SkipList) (key : Key) (value : Value)
    → IsValid s
    → (iter (insert key value s).1 ≡ insert_entry key value (iter s))
      × ((insert key value s).0 ≡ not (has_key key (iter s)))
iter-insert s key value (order, v) =
    let (r, told) = insert_order s order key value v in
    rw (iter_order s order v, iter_order (insert key value s).1 r.order r.valid) (r.entries, told)

-- The entries of a well-formed list come in strictly ascending order of their keys, and `len`
-- counts them.
pub iter-IsAscending : (s : SkipList) → IsValid s → IsAscending (iter s) × (s.len ≡ length (iter s))
iter-IsAscending s (order, v) =
    rw (iter_order s order v) (v.ascending, v.counted ∙ length_entries s.heap order)
  where
    length_entries : (heap : List Node) (xs : List ℕ) → length xs ≡ length (entries_of heap xs)
    length_entries heap [] = refl
    length_entries heap (x ∷ xs) = ap suc (length_entries heap xs)

-- In a well-formed list the search through the levels finds what a scan of the entries in order
-- finds: the first entry at or behind the key and the snapshot, if it is one of the key.
pub get_entry_at_lem :
    (s : SkipList) (key : Bytes) (snapshot : ℕ)
    → IsValid s
    → get_entry_at s key snapshot ≡ lookup_entry key snapshot (iter s)
get_entry_at_lem s key snapshot (order, v) =
    rw (iter_order s order v) (get_entry_at_order s order v (record { user = key; seq = snapshot }))
