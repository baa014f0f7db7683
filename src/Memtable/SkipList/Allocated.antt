-- ===== src/Memtable/SkipList/Allocated.antt =====
-- A new node on the heap, before a link leads to it.
use lowdb.Prelude.{
  ℕ, zero, suc, ◌<◌, ◌≡◌, ◌≢◌, refl, ap, Bool, List, [], ◌∷◌, ◌++◌, length, All, All-imp, arith,
  Ordering, some, none, ltb, get_elem?-append_left, get_elem?-append_end, get_or, length-replicate,
}
use lowdb.Common.Key.{Key, cmp}
use lowdb.Common.Key.Order.{cmp_refl}
use lowdb.Common.Value.{Value}
use lowdb.Memtable.Sorted.{IsAscending}
use lowdb.Memtable.SkipList.{Ptr, Node, SkipList, tower_at, alloc, with_node}
use lowdb.Memtable.SkipList.Chain.{first_tall, last_tall, Apart, Distinct, ptr_eq}
use lowdb.Memtable.SkipList.Memory.{height, tall, entry_of}
use lowdb.Memtable.SkipList.Search.{entry_at_addr, entries_of}

module _ (s : SkipList) (key : Key) (value : Value) (h : ℕ) where
  abbrev pub node : Node
  node = alloc key value h

  abbrev n : ℕ
  n = length s.heap

  abbrev s₀ : SkipList
  s₀ = with_node s node

  pub old_height : (a : ℕ) → a < length s.heap → height s₀ a ≡ height s a
  unfolding tower_at
  old_height a w = rw (tower_at, get_elem?-append_left s.heap (node ∷ []) a w)

  pub new_height : height s₀ n ≡ h
  unfolding tower_at alloc
  new_height = rw (tower_at, get_elem?-append_end s.heap node) (length-replicate h none)

  old_entry : (a : ℕ) → a < length s.heap → entry_at_addr s₀.heap a ≡ entry_at_addr s.heap a
  old_entry a w = rw (entry_at_addr, entry_of, get_elem?-append_left s.heap (node ∷ []) a w)

  pub new_entry : entry_at_addr s₀.heap n ≡ (key, value)
  unfolding alloc
  new_entry = rw (entry_at_addr, entry_of, get_elem?-append_end s.heap node)

  pub old_tall :
      (level : ℕ) (xs : List ℕ)
      → All (λ a. a < length s.heap) xs
      → All (λ a. tall s₀ level a ≡ tall s level a) xs
  old_tall level xs w = All-imp _ _ (λ a b. ap (ltb level) (old_height a b)) xs w

  pub last_tall-same :
      (t t' : ℕ → Bool) (p : Ptr) (xs : List ℕ)
      → All (λ a. t' a ≡ t a) xs
      → last_tall t p xs ≡ last_tall t' p xs
  unfolding last_tall
  last_tall-same t t' p [] e = refl
  last_tall-same t t' p (a ∷ xs) e = rw e.0 (last_tall-same t t' _ xs e.1)

  pub first_tall-same :
      (t t' : ℕ → Bool) (xs : List ℕ)
      → All (λ a. t' a ≡ t a) xs
      → first_tall t xs ≡ first_tall t' xs
  unfolding first_tall
  first_tall-same t t' [] e = refl
  first_tall-same t t' (a ∷ xs) e = rw (e.0, first_tall-same t t' xs e.1)

  pub Apart-below : (xs : List ℕ) → All (λ a. a < length s.heap) xs → Apart (some n) xs
  unfolding ptr_eq
  Apart-below [] w = tt
  Apart-below (a ∷ xs) w = (ground arith, Apart-below xs w.1)

  pub entries_of-old :
      (xs : List ℕ) → All (λ a. a < length s.heap) xs → entries_of s₀.heap xs ≡ entries_of s.heap xs
  entries_of-old [] w = refl
  entries_of-old (a ∷ xs) w = rw (old_entry a w.0, entries_of-old xs w.1)

different :
    (heap : List Node) (x y : ℕ)
    → cmp (entry_at_addr heap x).0 (entry_at_addr heap y).0 ≡ Ordering.lt
    → x ≢ y
different heap x y h e =
    let same : cmp (entry_at_addr heap x).0 (entry_at_addr heap y).0 ≡ Ordering.eq =
      rw e (cmp_refl (entry_at_addr heap y).0) in
    cc

-- Ascending keys make the addresses different.
Apart-higher :
    (heap : List Node) (x : ℕ) (ys : List ℕ)
    → All (λ (f : Key × Value). cmp (entry_at_addr heap x).0 f.0 ≡ Ordering.lt) (entries_of heap ys)
    → Apart (some x) ys
unfolding ptr_eq
Apart-higher heap x [] h = tt
Apart-higher heap x (y ∷ ys) h =
    let other : x ≢ y = different heap x y h.0 in (ground arith, Apart-higher heap x ys h.1)

pub Distinct-ascending :
    (heap : List Node) (p : Ptr) (xs : List ℕ)
    → Apart p xs
    → IsAscending (entries_of heap xs)
    → Distinct p xs
Distinct-ascending heap p [] a asc = tt
Distinct-ascending heap p (x ∷ xs) a asc =
    (a, Distinct-ascending heap (some x) xs (Apart-higher heap x xs asc.0) asc.1)

pub Apart-none : (xs : List ℕ) → Apart none xs
unfolding ptr_eq
Apart-none [] = tt
Apart-none (x ∷ xs) = (refl, Apart-none xs)

-- A pointer of a new node, which is null still, reads like one that does not exist.
pub null_tower :
    (heap : List Node) (x : Node) (a level : ℕ)
    → get_or x.tower level none ≡ none
    → get_or (tower_at (heap ++ x ∷ []) a) level none ≡ get_or (tower_at heap a) level none
unfolding tower_at
null_tower [] x zero level h = h
null_tower [] x (suc a) level h = refl
null_tower (y ∷ heap) x zero level h = refl
null_tower (y ∷ heap) x (suc a) level h = null_tower heap x a level h
