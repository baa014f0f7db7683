-- ===== src/Memtable/SkipList/Memory.antt =====
-- What a store leaves in the memory of a skip list.
use lowdb.Prelude.{
  ℕ, zero, suc, ◌<◌, ◌≡◌, ◌≢◌, refl, ap, Bool, false, Option, none, some, List, [], ◌∷◌, length,
  get_elem?, set, length-set, get_or-set_self, get_or-set_ne, arith, ltb, ◌==◌, if◌then◌else◌,
  ==_iff,
}
use lowdb.Common.Key.{Key}
use lowdb.Common.Value.{Value}
use lowdb.Memtable.SkipList.{Ptr, Node, SkipList, tower_at, load, set_tower, store}
use lowdb.Memtable.SkipList.Chain.{ptr_eq}

abbrev pub height : SkipList → ℕ → ℕ
height s a = length (tower_at s.heap a)

abbrev pub tall : SkipList → ℕ → ℕ → Bool
tall s level a = ltb level (height s a)

-- The place of a pointer exists.
abbrev pub InSlot : SkipList → Ptr → ℕ → Type 0
InSlot s none level = level < length s.head
InSlot s (some a) level = level < height s a

-- what a reader sees of a node
abbrev pub entry_of : List Node → ℕ → Option (Key × Value)
entry_of heap a = elim (get_elem? heap a) [ none ↦ none | some n ↦ some (n.key, n.value) ]

tower_at-set_tower :
    (heap : List Node) (a level : ℕ) (p : Ptr) (b : ℕ)
    → tower_at (set_tower heap a level p) b
      ≡ (if a == b then set (tower_at heap b) level p else tower_at heap b)
unfolding tower_at set_tower
tower_at-set_tower [] a level p b = ground arith
tower_at-set_tower (n ∷ heap) zero level p zero = ground arith
tower_at-set_tower (n ∷ heap) zero level p (suc b) = ground arith
tower_at-set_tower (n ∷ heap) (suc a) level p zero = ground arith
tower_at-set_tower (n ∷ heap) (suc a) level p (suc b) =
    ground (arith, tower_at-set_tower heap a level p b)

entry_of-set_tower :
    (heap : List Node) (a level : ℕ) (p : Ptr) (b : ℕ)
    → entry_of (set_tower heap a level p) b ≡ entry_of heap b
unfolding set_tower
entry_of-set_tower [] a level p b = refl
entry_of-set_tower (n ∷ heap) zero level p zero = refl
entry_of-set_tower (n ∷ heap) zero level p (suc b) = refl
entry_of-set_tower (n ∷ heap) (suc a) level p zero = refl
entry_of-set_tower (n ∷ heap) (suc a) level p (suc b) = entry_of-set_tower heap a level p b

length-set_tower :
    (heap : List Node) (a level : ℕ) (p : Ptr) → length (set_tower heap a level p) ≡ length heap
unfolding set_tower
length-set_tower [] a level p = refl
length-set_tower (n ∷ heap) zero level p = refl
length-set_tower (n ∷ heap) (suc a) level p = ap suc (length-set_tower heap a level p)

module _ (s : SkipList) where
  pub load-store_self :
      (p : Ptr) (level : ℕ) (v : Ptr) → InSlot s p level → load (store s p level v) p level ≡ v
  unfolding load store
  load-store_self none level v h = get_or-set_self s.head level v none h
  load-store_self (some a) level v h =
      rw (tower_at-set_tower, (==_iff a a).1 refl)
        (get_or-set_self (tower_at s.heap a) level v none h)

  pub load-store_ne :
      (p q : Ptr) (level : ℕ) (v : Ptr)
      → ptr_eq q p ≡ false
      → load (store s p level v) q level ≡ load s q level
  unfolding load store ptr_eq
  load-store_ne none none level v h = cc
  load-store_ne none (some b) level v h = refl
  load-store_ne (some a) none level v h = refl
  load-store_ne (some a) (some b) level v h = ground (arith, tower_at-set_tower s.heap a level v b)

  pub load-store_level :
      (p q : Ptr) (i j : ℕ) (v : Ptr) → i ≢ j → load (store s p i v) q j ≡ load s q j
  unfolding load store
  load-store_level none none i j v h = get_or-set_ne s.head i j v none h
  load-store_level none (some b) i j v h = refl
  load-store_level (some a) none i j v h = refl
  load-store_level (some a) (some b) i j v h =
      ground
        (arith, tower_at-set_tower s.heap a i v b, get_or-set_ne (tower_at s.heap b) i j v none h)

  pub height-store :
      (p : Ptr) (level : ℕ) (v : Ptr) (a : ℕ) → height (store s p level v) a ≡ height s a
  unfolding store
  height-store none level v a = refl
  height-store (some b) level v a =
      ground (arith, tower_at-set_tower s.heap b level v a, length-set (tower_at s.heap a) level v)

  pub entry_of-store :
      (p : Ptr) (level : ℕ) (v : Ptr) (a : ℕ)
      → entry_of (store s p level v).heap a ≡ entry_of s.heap a
  unfolding store
  entry_of-store none level v a = refl
  entry_of-store (some b) level v a = entry_of-set_tower s.heap b level v a

  pub length-store :
      (p : Ptr) (level : ℕ) (v : Ptr) → length (store s p level v).heap ≡ length s.heap
  unfolding store
  length-store none level v = refl
  length-store (some b) level v = length-set_tower s.heap b level v

  pub length_head-store :
      (p : Ptr) (level : ℕ) (v : Ptr) → length (store s p level v).head ≡ length s.head
  unfolding store
  length_head-store none level v = length-set s.head level v
  length_head-store (some b) level v = refl

  pub max_height-store :
      (p : Ptr) (level : ℕ) (v : Ptr) → (store s p level v).max_height ≡ s.max_height
  unfolding store
  max_height-store none level v = refl
  max_height-store (some b) level v = refl

  pub len-store : (p : Ptr) (level : ℕ) (v : Ptr) → (store s p level v).len ≡ s.len
  unfolding store
  len-store none level v = refl
  len-store (some b) level v = refl
