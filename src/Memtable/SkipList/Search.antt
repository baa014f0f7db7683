-- ===== src/Memtable/SkipList/Search.antt =====
-- `find` and `seek` on a well-formed skip list reach, at each level, the last node before the target
-- and the first one behind it.
use lowdb.Prelude.{
  ℕ, zero, suc, ◌-◌, ◌<◌, ◌≤◌, ◌≡◌, ◌≢◌, refl, ap, ◌∙◌, true, none, some, List, [], ◌∷◌, ◌++◌,
  length, get_or, set, length-set, get_or-set_self, get_or-set_ne, All, arith, ltb, map, Bool-cases,
  inl, inr, Ordering, ltb→lt,
}
use lowdb.Prelude.Bytes.{Bytes}
use lowdb.Common.Key.{Key}
use lowdb.Common.Value.{Value, delete}
use lowdb.Memtable.Sorted.{IsAscending}
use lowdb.Memtable.SkipList.{
  Ptr, Node, SkipList, load, cmp_at, walk, descend, seek_from, seek, find, rounds, max_levels,
}
use lowdb.Memtable.SkipList.Chain.{Linked, Linked-first, last_tall, first_tall, Resumes, resume}
use lowdb.Memtable.SkipList.Memory.{height, tall, entry_of}

-- The key and the value at an address; the default is never met below the heap's length.
abbrev pub entry_at_addr : List Node → ℕ → Key × Value
entry_at_addr heap a = elim (entry_of heap a) [
  | none ↦ (record { user = []; seq = 0 }, delete)
  | some e ↦ e
]

abbrev pub entries_of : List Node → List ℕ → List (Key × Value)
entries_of heap order = map (entry_at_addr heap) order

-- `order` lists the addresses of the nodes by their keys.
pub record IsOrderOf (s : SkipList) (order : List ℕ) : Type 0 where
  pub head_levels : length s.head ≡ max_levels
  pub top : (1 ≤ s.max_height) × (s.max_height ≤ max_levels)
  pub all_nodes : length order ≡ length s.heap
  pub within : All (λ a. a < length s.heap) order
  pub heights : All (λ a. (1 ≤ height s a) × (height s a ≤ s.max_height)) order
  pub ascending : IsAscending (entries_of s.heap order)
  pub linked : (level : ℕ) → Linked (tall s level) (λ p. load s p level) none order
  pub counted : s.len ≡ length order

pub tall_below : (s : SkipList) (level a : ℕ) → tall s (suc level) a ≡ true → tall s level a ≡ true
tall_below s level a h = ground arith

module _ (s : SkipList) (key : Bytes) (seq : ℕ) where
  abbrev pub IsLow : ℕ → Type 0
  IsLow a = cmp_at s a key seq ≡ Ordering.lt

  abbrev pub IsHigh : ℕ → Type 0
  IsHigh a = cmp_at s a key seq ≢ Ordering.lt

  module _ (level : ℕ) where
    walk_stops :
        (fuel : ℕ) (p : Ptr) (xs : List ℕ)
        → All IsHigh xs
        → walk s key seq level (suc fuel) p (first_tall (tall s level) xs)
          ≡ (p, first_tall (tall s level) xs)
    unfolding walk first_tall
    walk_stops fuel p [] h = refl
    walk_stops fuel p (a ∷ xs) (h, hs) = elim (Bool-cases (tall s level a)) [
      | inl e ↦ rw e (stop (cmp_at s a key seq) refl)
      | inr e ↦ rw e (walk_stops fuel p xs hs)
    ]
      where
        stop :
            (o : Ordering)
            → cmp_at s a key seq ≡ o
            → walk s key seq level (suc fuel) p (some a) ≡ (p, some a)
        stop Ordering.lt e = absurd (h e)
        stop Ordering.eq e = rw (e, walk)
        stop Ordering.gt e = rw (e, walk)

    pub walk_lem :
        (fuel : ℕ) {p : Ptr} (before after : List ℕ)
        → Linked (tall s level) (λ q. load s q level) p (before ++ after)
        → All IsLow before
        → All IsHigh after
        → length before < fuel
        → walk s key seq level fuel p (load s p level)
          ≡ (last_tall (tall s level) p before, first_tall (tall s level) after)
    unfolding last_tall first_tall walk
    walk_lem zero before after l lo hi h = elim h [ ]
    walk_lem (suc fuel) {p} [] after l lo hi h =
        rw (Linked-first (tall s level) (λ q. load s q level) l) (walk_stops fuel p after hi)
    walk_lem (suc fuel) {p} (a ∷ before) after (Linked.step t e l) (la, lo) hi h =
        rw (e, t, walk, la) (walk_lem fuel before after l lo hi (omega arith))
    walk_lem (suc fuel) {p} (a ∷ before) after (Linked.skip t l) (la, lo) hi h =
        rw t (walk_lem (suc fuel) before after l lo hi (omega arith))

  -- The list, cut where the target belongs.
  module _ (before after : List ℕ) (lows : All IsLow before) (highs : All IsHigh after)
      (links : (level : ℕ) → Linked (tall s level) (λ p. load s p level) none (before ++ after))
      (short : length before ≤ length s.heap) where
    abbrev pub pred_at : ℕ → Ptr
    pred_at level = last_tall (tall s level) none before

    abbrev pub succ_at : ℕ → Ptr
    succ_at level = first_tall (tall s level) after

    -- where the search enters a level
    abbrev Enters : Ptr → ℕ → Type 0
    Enters q level =
        Resumes (tall s (suc level)) (tall s level) (λ p. load s p level) IsLow (tall_below s level)
          q (pred_at level) (length before) after

    walk-Enters :
        (q : Ptr) (level : ℕ)
        → Enters q level
        → walk s key seq level (rounds s) q (load s q level) ≡ (pred_at level, succ_at level)
    walk-Enters q level r =
        walk_lem level (rounds s) r.between after r.linked r.all highs (omega (arith, r.short))
        ∙ ap (λ (p : Ptr). (p, succ_at level)) r.reaches

    -- where it enters the levels below `k`
    abbrev EntersBelow : Ptr → ℕ → Type 0
    EntersBelow q zero = Unit {0}
    EntersBelow q (suc level) = Enters q level

    enter_top : (k : ℕ) → EntersBelow none k
    enter_top zero = tt
    enter_top (suc level) = record {
      between = before;
      linked = links level;
      reaches = refl;
      all = lows;
      short = omega arith;
    }

    enter_next : (level : ℕ) → EntersBelow (pred_at level) level
    enter_next zero = tt
    enter_next (suc level) =
        resume (tall s (suc level)) (tall s level) (λ p. load s p level) IsLow (tall_below s level)
          before after lows (links level)

    descend_keeps :
        (k : ℕ) (q : Ptr) (ps cs : List Ptr) (j : ℕ)
        → k ≤ j
        → (get_or (descend s key seq k q ps cs).0 j none ≡ get_or ps j none)
          × (get_or (descend s key seq k q ps cs).1 j none ≡ get_or cs j none)
    unfolding descend
    descend_keeps zero q ps cs j h = (refl, refl)
    descend_keeps (suc level) q ps cs j h =
        let p = walk s key seq level (rounds s) q (load s q level) in
        let other : level ≢ j = omega arith in
        let rest = descend_keeps level p.0 (set ps level p.0) (set cs level p.1) j (omega arith) in
        (
          rest.0 ∙ get_or-set_ne ps level j p.0 none other,
          rest.1 ∙ get_or-set_ne cs level j p.1 none other,
        )

    descend_step :
        (level : ℕ) (q : Ptr) (ps cs : List Ptr)
        → Enters q level
        → descend s key seq (suc level) q ps cs
          ≡ descend s key seq level
              (pred_at level)
              (set ps level (pred_at level))
              (set cs level (succ_at level))
    unfolding descend
    descend_step level q ps cs r =
        ap (λ (w : Ptr × Ptr). descend s key seq level w.0 (set ps level w.0) (set cs level w.1))
          (walk-Enters q level r)

    seek_step :
        (level : ℕ) (q curr : Ptr)
        → Enters q level
        → seek_from s key seq (suc level) q curr
          ≡ seek_from s key seq level (pred_at level) (succ_at level)
    unfolding seek_from
    seek_step level q curr r =
        ap (λ (w : Ptr × Ptr). seek_from s key seq level w.0 w.1) (walk-Enters q level r)

    descend_lem :
        (k : ℕ) (q : Ptr) (ps cs : List Ptr) (j : ℕ)
        → EntersBelow q k
        → j < k
        → k ≤ length ps
        → k ≤ length cs
        → (get_or (descend s key seq k q ps cs).0 j none ≡ pred_at j)
          × (get_or (descend s key seq k q ps cs).1 j none ≡ succ_at j)
    descend_lem zero q ps cs j r h hp hc = elim h [ ]
    descend_lem (suc level) q ps cs j r h hp hc =
        rw (descend_step level q ps cs r) (elim (Bool-cases (ltb j level)) [
          | inl below ↦
              descend_lem level (pred_at level) (set ps level (pred_at level))
                (set cs level (succ_at level)) j (enter_next level) (ltb→lt j level below)
                (rw length-set (omega arith)) (rw length-set (omega arith))
          | inr above ↦
              let here : level ≡ j = ground arith in
              let kept =
                descend_keeps level (pred_at level) (set ps level (pred_at level))
                  (set cs level (succ_at level)) level (omega arith) in
              rw (← here) (
                kept.0 ∙ get_or-set_self ps level (pred_at level) none (omega arith),
                kept.1 ∙ get_or-set_self cs level (succ_at level) none (omega arith),
              )
        ])

    seek_from_lem :
        (k : ℕ) (q curr : Ptr)
        → EntersBelow q (suc k)
        → seek_from s key seq (suc k) q curr ≡ succ_at 0
    seek_from_lem zero q curr r = seek_step 0 q curr r ∙ (unfold seek_from in refl)
    seek_from_lem (suc level) q curr r =
        seek_step (suc level) q curr r
        ∙ seek_from_lem level (pred_at (suc level)) (succ_at (suc level)) (enter_next (suc level))

    -- `seek` returns the first node at or behind the target.
    pub seek_lem : 1 ≤ s.max_height → seek s key seq ≡ succ_at 0
    unfolding seek
    seek_lem h =
        let e : s.max_height ≡ suc (s.max_height - 1) = omega arith in
        ap (λ (k : ℕ). seek_from s key seq k none none) e
        ∙ seek_from_lem (s.max_height - 1) none none (enter_top (suc (s.max_height - 1)))

    -- `find` returns the neighbours of the target at every level below the height of the list.
    pub find_lem :
        (ps cs : List Ptr) (j : ℕ)
        → j < s.max_height
        → s.max_height ≤ length ps
        → s.max_height ≤ length cs
        → (get_or (find s key seq ps cs).1.0 j none ≡ pred_at j)
          × (get_or (find s key seq ps cs).1.1 j none ≡ succ_at j)
    unfolding find
    find_lem ps cs j h hp hc =
        descend_lem s.max_height none ps cs j (enter_top s.max_height) h hp hc
