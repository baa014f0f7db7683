-- ===== src/Memtable/SkipList/Link.antt =====
-- The stores of `insert`, level by level, link the new node in everywhere it is tall enough.
use lowdb.Prelude.{
  ℕ, zero, suc, ◌+◌, ◌<◌, ◌≤◌, ◌≡◌, refl, sym, ◌∙◌, true, false, none, some, List, [], ◌∷◌, ◌++◌,
  length, get_or, arith, ltb, Bool-cases, inl, inr, ltb→lt, lt→ltb,
}
use lowdb.Memtable.SkipList.{Ptr, SkipList, load, store, link_level, link, max_levels}
use lowdb.Memtable.SkipList.Chain.{
  Linked, Linked-first, Linked-from_last, Linked-load, Linked-insert, Linked-insert_low, last_tall,
  first_tall, Apart, Apart-last, Distinct, ptr_eq,
}
use lowdb.Memtable.SkipList.Memory.{
  height, tall, InSlot, entry_of, load-store_self, load-store_ne, load-store_level, height-store,
  max_height-store, len-store, entry_of-store, length-store, length_head-store,
}

InSlot-of_tall : (s : SkipList) (a level : ℕ) → tall s level a ≡ true → InSlot s (some a) level
InSlot-of_tall s a level h = ltb→lt level (height s a) h

InSlot-last :
    (s : SkipList) (level : ℕ) (p : Ptr) (xs : List ℕ)
    → InSlot s p level
    → InSlot s (last_tall (tall s level) p xs) level
unfolding last_tall
InSlot-last s level p [] h = h
InSlot-last s level p (a ∷ xs) h = elim (Bool-cases (tall s level a)) [
  | inl e ↦ rw e (InSlot-last s level (some a) xs (InSlot-of_tall s a level e))
  | inr e ↦ rw e (InSlot-last s level p xs h)
]

-- Moving a place to a memory of the same shape.
InSlot-same :
    (s s' : SkipList) (p : Ptr) (level : ℕ)
    → ((a : ℕ) → height s' a ≡ height s a)
    → length s'.head ≡ length s.head
    → InSlot s p level
    → InSlot s' p level
InSlot-same s s' none level hh hl h = rw hl h
InSlot-same s s' (some a) level hh hl h = rw (hh a) h

load_other :
    (s : SkipList) (n level : ℕ) (p q v : Ptr) (j : ℕ)
    → (level ≡ j → ⊥)
    → load (store (store s (some n) level v) p level (some n)) q j ≡ load s q j
load_other s n level p q v j h =
    load-store_level (store s (some n) level v) p q level j (some n) h
    ∙ load-store_level s (some n) q level j v h

-- `s₀` is the list with the new node `n` allocated, and not linked yet.
module _ (s₀ : SkipList) (n : ℕ) (before after : List ℕ) where
  -- What holds when the levels below `level` are linked.
  pub record IsLinkedTo (level : ℕ) (s : SkipList) : Type 0 where
    pub same_heights : (a : ℕ) → height s a ≡ height s₀ a
    pub same_entries : (a : ℕ) → entry_of s.heap a ≡ entry_of s₀.heap a
    pub same_nodes : length s.heap ≡ length s₀.heap
    pub same_head : length s.head ≡ length s₀.head
    pub same_top : s.max_height ≡ s₀.max_height
    pub same_len : s.len ≡ s₀.len
    pub linked :
        (j : ℕ) → j < level → Linked (tall s₀ j) (λ p. load s p j) none (before ++ n ∷ after)
    pub open_above :
        (j : ℕ) → level ≤ j → Linked (tall s₀ j) (λ p. load s p j) none (before ++ after)

module _ (s₀ : SkipList) (n : ℕ) (before after : List ℕ) (preds succs : List Ptr)
    (distinct : Distinct none (before ++ after)) (fresh : Apart (some n) (before ++ after))
    (levels : length s₀.head ≡ max_levels) (fits : height s₀ n ≤ max_levels)
    (preds_ok : (j : ℕ) → j < height s₀ n → get_or preds j none ≡ last_tall (tall s₀ j) none before)
    (succs_ok : (j : ℕ)
      → j < height s₀ n
      → get_or succs j none ≡ first_tall (tall s₀ j) after) where
  Apart-before : (xs ys : List ℕ) → Apart (some n) (xs ++ ys) → Apart (some n) xs
  Apart-before [] ys h = tt
  Apart-before (x ∷ xs) ys h = (h.0, Apart-before xs ys h.1)

  abbrev pred : ℕ → Ptr
  pred level = last_tall (tall s₀ level) none before

  pred_other : (level : ℕ) → ptr_eq (some n) (pred level) ≡ false
  pred_other level =
      Apart-last (tall s₀ level) (some n) none before (unfold ptr_eq in refl)
        (Apart-before before after fresh)

  pred_slot : (level : ℕ) → level < height s₀ n → InSlot s₀ (pred level) level
  pred_slot level h = InSlot-last s₀ level none before (omega arith)

  -- The chain of the level that is stored now.
  this_level :
      (level : ℕ) (s : SkipList) (v : Ptr)
      → level < height s₀ n
      → IsLinkedTo s₀ n before after level s
      → v ≡ first_tall (tall s₀ level) after
      → Linked
          (tall s₀ level)
          (λ p. load (store (store s (some n) level v) (pred level) level (some n)) p level)
          none
          (before ++ n ∷ after)
  this_level level s v h st e =
      Linked-insert (tall s₀ level) (λ p. load s p level) _ n (lt→ltb _ _ h) (pred level) before
        after refl
        (load-store_self s1 (pred level) level (some n) (
          InSlot-same s₀ s1 (pred level) level
            (λ a. height-store s (some n) level v a ∙ st.same_heights a)
            (length_head-store s (some n) level v ∙ st.same_head) (pred_slot level h)))
        (load-store_ne s1 (pred level) (some n) level (some n) (pred_other level)
          ∙ load-store_self s (some n) level v (rw (st.same_heights n) h)
          ∙ e
          ∙ sym (
              Linked-first (tall s₀ level) (λ p. load s p level)
                (Linked-from_last (tall s₀ level) (λ p. load s p level) before after
                  (st.open_above level (omega arith)))))
        (λ q hp hn.
          load-store_ne s1 (pred level) q level (some n) hp ∙ load-store_ne s (some n) q level v hn)
        fresh (unfold ptr_eq in refl) distinct (st.open_above level (omega arith))
    where
      s1 : SkipList
      s1 = store s (some n) level v

  link_level-IsLinkedTo :
      (level : ℕ) (s : SkipList)
      → level < height s₀ n
      → IsLinkedTo s₀ n before after level s
      → IsLinkedTo s₀ n before after (level + 1) (link_level n preds succs level s)
  unfolding link_level
  link_level-IsLinkedTo level s h st = rw (preds_ok level h) (record {
    same_heights = λ a.
        height-store s1 p level (some n) a ∙ height-store s (some n) level v a ∙ st.same_heights a;
    same_entries = λ a.
        entry_of-store s1 p level (some n) a
        ∙ entry_of-store s (some n) level v a
        ∙ st.same_entries a;
    same_nodes = length-store s1 p level (some n) ∙ length-store s (some n) level v ∙ st.same_nodes;
    same_head =
        length_head-store s1 p level (some n) ∙ length_head-store s (some n) level v ∙ st.same_head;
    same_top =
        max_height-store s1 p level (some n) ∙ max_height-store s (some n) level v ∙ st.same_top;
    same_len = len-store s1 p level (some n) ∙ len-store s (some n) level v ∙ st.same_len;
    linked = λ j hj. elim (Bool-cases (ltb j level)) [
      | inl below ↦
          Linked-load (tall s₀ j) (λ q. load s q j) _
            (λ q. load_other s n level p q v j (λ e. omega (arith, ltb→lt j level below)))
            (st.linked j (ltb→lt j level below))
      | inr above ↦
          let here : level ≡ j = ground arith in
          rw (← here) (this_level level s v h st (succs_ok level h))
    ];
    open_above = λ j hj.
        Linked-load (tall s₀ j) (λ q. load s q j) _
          (λ q. load_other s n level p q v j (λ e. omega arith)) (st.open_above j (omega arith));
  })
    where
      v : Ptr
      v = get_or succs level none

      p : Ptr
      p = pred level

      s1 : SkipList
      s1 = store s (some n) level v

  link-IsLinkedTo :
      (k level top : ℕ) (s : SkipList)
      → level + k ≡ top
      → top ≤ height s₀ n
      → IsLinkedTo s₀ n before after level s
      → IsLinkedTo s₀ n before after top (link k level preds succs n s)
  unfolding link
  link-IsLinkedTo zero level top s e h st = let e' : level ≡ top = omega arith in rw (← e') st
  link-IsLinkedTo (suc k) level top s e h st =
      link-IsLinkedTo k (level + 1) top (link_level n preds succs level s) (omega arith) h
        (link_level-IsLinkedTo level s (omega arith) st)

  -- After the last level the node is linked in at every level that it reaches.
  pub Linked-everywhere :
      (s : SkipList) (j : ℕ)
      → IsLinkedTo s₀ n before after (height s₀ n) s
      → Linked (tall s₀ j) (λ p. load s p j) none (before ++ n ∷ after)
  Linked-everywhere s j st = elim (Bool-cases (ltb j (height s₀ n))) [
    | inl below ↦ st.linked j (ltb→lt _ _ below)
    | inr above ↦
        Linked-insert_low (tall s₀ j) (λ p. load s p j) n above before after
          (st.open_above j (ground arith))
  ]

  pub link_lem :
      (s : SkipList)
      → IsLinkedTo s₀ n before after 0 s
      → IsLinkedTo s₀ n before after (height s₀ n) (link (height s₀ n) 0 preds succs n s)
  link_lem s st = link-IsLinkedTo (height s₀ n) 0 (height s₀ n) s (omega arith) (omega arith) st
