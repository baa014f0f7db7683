-- ===== src/Memtable/SkipList/Insert.antt =====
-- `insert` keeps the list well formed, and what is iterated over is the sorted insertion.
use lowdb.Prelude.{
  get_or-replicate, ℕ, ◌+◌, ◌<◌, ◌≤◌, ◌≡◌, refl, ap, sym, ◌∙◌, false, List, [], ◌∷◌, ◌++◌, length,
  length-append, All, All-imp, All-split, All-append, arith, some, none, subst, ltb, lt→ltb, get_or,
  map-append,
}
use lowdb.Common.Key.{Key}
use lowdb.Common.Value.{Value}
use lowdb.Memtable.Sorted.{
  insert_entry, has_key, AllLow, insert_entry-append_low, insert_entry-IsAscending,
}
use lowdb.Memtable.SkipList.{Ptr, SkipList, load, is_at, raise, alloc, link, max_levels, with_node}
use lowdb.Memtable.SkipList.Chain.{
  Linked, Linked-load, Linked-ext, first_tall, last_tall, Apart, Distinct,
}
use lowdb.Memtable.SkipList.Memory.{height, tall}
use lowdb.Memtable.SkipList.Height.{random_height_bounds}
use lowdb.Memtable.SkipList.Search.{IsOrderOf, entry_at_addr, entries_of, IsLow, IsHigh}
use lowdb.Memtable.SkipList.Cut.{IsCut, cmp_at-entry}
use lowdb.Memtable.SkipList.Link.{IsLinkedTo, link_lem, Linked-everywhere}
use lowdb.Memtable.SkipList.Allocated.{
  old_height, new_height, new_entry, old_tall, last_tall-same, first_tall-same, Apart-below,
  entries_of-old, Distinct-ascending, Apart-none, null_tower,
}

-- Drawing a height changes nothing that a reader sees.
pub raise-IsOrderOf :
    (s : SkipList) (order : List ℕ) → IsOrderOf s order → IsOrderOf (raise s).1 order
unfolding raise load
raise-IsOrderOf s order h =
    let (lo, hi) = random_height_bounds s.rng in
    record {
      head_levels = h.head_levels;
      top = omega (arith, h.top);
      all_nodes = h.all_nodes;
      within = h.within;
      heights =
          All-imp _ _ (λ a (b : (1 ≤ height s a) × (height s a ≤ s.max_height)). omega arith) order
            h.heights;
      ascending = h.ascending;
      linked =
          λ level. Linked-load (tall s level) (λ p. load s p level) _ (same level) (h.linked level);
      counted = h.counted;
    }
  where
    same : (level : ℕ) (p : Ptr) → load (raise s).1 p level ≡ load s p level
    same level none = refl
    same level (some a) = refl

-- The first node behind the target tells whether the key is there.
pub is_at-first :
    (s : SkipList) (key : Key) (xs : List ℕ)
    → All (λ a. a < length s.heap) xs
    → All (λ a. 1 ≤ height s a) xs
    → All (IsHigh s key.user key.seq) xs
    → is_at s (first_tall (tall s 0) xs) key.user key.seq ≡ has_key key (entries_of s.heap xs)
unfolding is_at first_tall has_key
is_at-first s key [] w t h = refl
is_at-first s key (a ∷ xs) w t h =
    rw (lt→ltb 0 (height s a) t.0) (ground (arith, cmp_at-entry s a key.user key.seq w.0, h.0))

-- A key that is not there belongs before every entry that is not lower.
insert_entry-front :
    (s : SkipList) (key : Key) (value : Value) (xs : List ℕ)
    → All (λ a. a < length s.heap) xs
    → All (IsHigh s key.user key.seq) xs
    → has_key key (entries_of s.heap xs) ≡ false
    → insert_entry key value (entries_of s.heap xs) ≡ (key, value) ∷ entries_of s.heap xs
unfolding has_key insert_entry
insert_entry-front s key value [] w h e = refl
insert_entry-front s key value (a ∷ xs) w h e =
    ground (arith, cmp_at-entry s a key.user key.seq w.0, h.0)

pub lows-AllLow :
    (s : SkipList) (key : Key) (xs : List ℕ)
    → All (λ a. a < length s.heap) xs
    → All (IsLow s key.user key.seq) xs
    → AllLow key (entries_of s.heap xs)
lows-AllLow s key [] w h = tt
lows-AllLow s key (a ∷ xs) w h =
    (sym (cmp_at-entry s a key.user key.seq w.0) ∙ h.0, lows-AllLow s key xs w.1 h.1)

-- What `insert` leaves behind, beside its result.
pub record IsInserted (key : Key) (value : Value) (es : List (Key × Value)) (s : SkipList)
    : Type 0 where
  pub order : List ℕ
  pub valid : IsOrderOf s order
  pub entries : entries_of s.heap order ≡ insert_entry key value es

module _ (s : SkipList) (key : Key) (value : Value) (h : ℕ) (order : List ℕ)
    (valid : IsOrderOf s order) (lo : 1 ≤ h) (hi : h ≤ s.max_height)
    (c : IsCut s key.user key.seq order)
    (fresh : has_key key (entries_of s.heap c.after) ≡ false) where
  abbrev n' : ℕ
  n' = length s.heap

  abbrev s₁ : SkipList
  s₁ = with_node s (alloc key value h)

  cut_within : All (λ a. a < length s.heap) (c.before ++ c.after)
  cut_within = rw c.whole valid.within

  abbrev within : All (λ a. a < length s.heap) c.before × All (λ a. a < length s.heap) c.after
  within = All-split (λ a. a < length s.heap) c.before c.after cut_within

  abbrev order' : List ℕ
  order' = c.before ++ n' ∷ c.after

  entries_lem : entries_of s₁.heap order' ≡ insert_entry key value (entries_of s.heap order)
  entries_lem =
      let lower = entries_of s.heap c.before in
      let higher = entries_of s.heap c.after in
      let here : entries_of s₁.heap order' ≡ lower ++ ((key, value) ∷ higher) =
        map-append _ c.before (n' ∷ c.after)
        ∙ simp (
          entries_of-old s key value h c.before within.0,
          entries_of-old s key value h c.after within.1,
          new_entry s key value h,
        ) in
      let inserted : insert_entry key value (lower ++ higher) ≡ lower ++ ((key, value) ∷ higher) =
        insert_entry-append_low key value lower higher (lows-AllLow s key c.before within.0 c.lows)
        ∙ ap (λ es. lower ++ es) (insert_entry-front s key value c.after within.1 c.highs fresh) in
      let same : lower ++ higher ≡ entries_of s.heap order =
        sym (map-append _ c.before c.after) ∙ ap (entries_of s.heap) c.whole in
      here ∙ sym inserted ∙ ap (insert_entry key value) same

  cut_links : (j : ℕ) → Linked (tall s j) (λ p. load s p j) none (c.before ++ c.after)
  cut_links j = rw c.whole (valid.linked j)

  load_same : (level : ℕ) (p : Ptr) → load s₁ p level ≡ load s p level
  unfolding load alloc
  load_same level none = refl
  load_same level (some a) =
      null_tower s.heap (alloc key value h) a level (get_or-replicate h level none)

  linked_to : IsLinkedTo s₁ n' c.before c.after 0 s₁
  linked_to = record {
    same_heights = λ a. refl;
    same_entries = λ a. refl;
    same_nodes = refl;
    same_head = refl;
    same_top = refl;
    same_len = refl;
    linked = λ j hj. elim hj [ ];
    open_above = λ j hj.
        Linked-ext (tall s j) (tall s₁ j) (λ p. load s p j) _
          (old_tall s key value h j (c.before ++ c.after) cut_within) (load_same j) (cut_links j);
  }

  module _ (preds succs : List Ptr)
      (preds_ok : (j : ℕ) → j < h → get_or preds j none ≡ last_tall (tall s j) none c.before)
      (succs_ok : (j : ℕ) → j < h → get_or succs j none ≡ first_tall (tall s j) c.after) where
    abbrev s₂ : SkipList
    s₂ = link h 0 preds succs n' s₁

    height_new : height s₁ n' ≡ h
    height_new = new_height s key value h

    preds_new :
        (j : ℕ) → j < height s₁ n' → get_or preds j none ≡ last_tall (tall s₁ j) none c.before
    preds_new j hj =
        preds_ok j (rw height_new at hj)
        ∙ last_tall-same s key value h (tall s j) (tall s₁ j) none c.before
            (old_tall s key value h j c.before within.0)

    succs_new : (j : ℕ) → j < height s₁ n' → get_or succs j none ≡ first_tall (tall s₁ j) c.after
    succs_new j hj =
        succs_ok j (rw height_new at hj)
        ∙ first_tall-same s key value h (tall s j) (tall s₁ j) c.after
            (old_tall s key value h j c.after within.1)

    distinct : Distinct none (c.before ++ c.after)
    distinct =
        Distinct-ascending s.heap none (c.before ++ c.after) (Apart-none _)
          (rw c.whole valid.ascending)

    apart : Apart (some n') (c.before ++ c.after)
    apart = Apart-below s key value h (c.before ++ c.after) cut_within

    fits : height s₁ n' ≤ max_levels
    fits = omega (arith, height_new, valid.top)

    done : IsLinkedTo s₁ n' c.before c.after (height s₁ n') s₂
    done = ap_height
      where
        ap_height : IsLinkedTo s₁ n' c.before c.after (height s₁ n') s₂
        ap_height =
            subst
              (λ (k : ℕ).
                IsLinkedTo s₁ n' c.before c.after (height s₁ n') (link k 0 preds succs n' s₁))
              height_new
              (link_lem s₁ n' c.before c.after preds succs distinct apart valid.head_levels fits
                preds_new succs_new s₁ linked_to)

    entry_same : (a : ℕ) → entry_at_addr s₂.heap a ≡ entry_at_addr s₁.heap a
    entry_same a = rw (entry_at_addr, done.same_entries a)

    entries_same : (xs : List ℕ) → entries_of s₂.heap xs ≡ entries_of s₁.heap xs
    entries_same [] = refl
    entries_same (a ∷ xs) = rw (entry_same a, entries_same xs)

    nodes : length s₂.heap ≡ length s.heap + 1
    nodes = done.same_nodes ∙ length-append s.heap (alloc key value h ∷ [])

    whole_length : length (c.before ++ c.after) ≡ length order
    whole_length = ap length c.whole

    still_within :
        (xs : List ℕ) → All (λ a. a < length s.heap) xs → All (λ a. a < length s₂.heap) xs
    still_within xs w = All-imp _ _ (λ a (b : a < length s.heap). omega (arith, nodes)) xs w

    heights :
        All (λ a. (1 ≤ height s a) × (height s a ≤ s.max_height)) c.before
        × All (λ a. (1 ≤ height s a) × (height s a ≤ s.max_height)) c.after
    heights =
        All-split (λ a. (1 ≤ height s a) × (height s a ≤ s.max_height)) c.before c.after
          (rw c.whole valid.heights)

    still_heights :
        (xs : List ℕ)
        → All (λ a. a < length s.heap) xs
        → All (λ a. (1 ≤ height s a) × (height s a ≤ s.max_height)) xs
        → All (λ a. (1 ≤ height s₂ a) × (height s₂ a ≤ s₂.max_height)) xs
    still_heights [] w b = tt
    still_heights (a ∷ xs) w b = (
      rw (done.same_top, done.same_heights a, old_height s key value h a w.0) b.0,
      still_heights xs w.1 b.1,
    )

    new_fits : (1 ≤ height s₂ n') × (height s₂ n' ≤ s₂.max_height)
    new_fits = rw (done.same_top, done.same_heights n', height_new) (lo, hi)

    pub link-IsInserted : IsInserted key value (entries_of s.heap order) s₂
    link-IsInserted = record {
      order = order';
      valid = record {
        head_levels = done.same_head ∙ valid.head_levels;
        top = rw done.same_top valid.top;
        all_nodes = omega (
          arith,
          nodes,
          whole_length,
          valid.all_nodes,
          length-append c.before (n' ∷ c.after),
          length-append c.before c.after,
        );
        within =
            All-append _ c.before (n' ∷ c.after) (still_within c.before within.0)
              (omega (arith, nodes), still_within c.after within.1);
        heights =
            All-append _ c.before (n' ∷ c.after) (still_heights c.before within.0 heights.0)
              (new_fits, still_heights c.after within.1 heights.1);
        ascending =
            rw (entries_same order', entries_lem)
              (insert_entry-IsAscending key value _ valid.ascending);
        linked = λ j.
            Linked-ext (tall s₁ j) (tall s₂ j) (λ p. load s₂ p j) _ (tall_all j order') (λ q. refl)
              (Linked-everywhere s₁ n' c.before c.after preds succs distinct apart valid.head_levels
                fits preds_new succs_new s₂ j done);
        counted =
            done.same_len
            ∙ omega (
              arith,
              whole_length,
              valid.counted,
              length-append c.before (n' ∷ c.after),
              length-append c.before c.after,
            );
      };
      entries = entries_same order' ∙ entries_lem;
    }
      where
        tall_all : (j : ℕ) (xs : List ℕ) → All (λ a. tall s₂ j a ≡ tall s₁ j a) xs
        tall_all j [] = tt
        tall_all j (a ∷ xs) = (ap (ltb j) (done.same_heights a), tall_all j xs)
