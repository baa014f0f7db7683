-- ===== src/Memtable/SkipList/Cut.antt =====
-- A list of nodes in order, cut where a key belongs.
use lowdb.Prelude.{
  ℕ, ◌<◌, ◌≡◌, refl, ap, sym, ◌∙◌, List, [], ◌∷◌, ◌++◌, length, get_elem?-some, All, arith,
  Ordering, some,
}
use lowdb.Prelude.Bytes.{Bytes}
use lowdb.Common.Key.{Key, cmp}
use lowdb.Common.Key.Order.{cmp_trans}
use lowdb.Common.Value.{Value}
use lowdb.Memtable.Sorted.{IsAscending}
use lowdb.Memtable.SkipList.{Node, SkipList, cmp_at, cmp_key}
use lowdb.Memtable.SkipList.Memory.{entry_of}
use lowdb.Memtable.SkipList.Search.{entry_at_addr, entries_of, IsLow, IsHigh}

pub entry_of-some :
    (heap : List Node) (a : ℕ) → a < length heap → entry_of heap a ≡ some (entry_at_addr heap a)
entry_of-some heap a h = let (n, e) = get_elem?-some heap a h in ground arith

pub cmp_at-entry :
    (s : SkipList) (a : ℕ) (key : Bytes) (seq : ℕ)
    → a < length s.heap
    → cmp_at s a key seq ≡ cmp (entry_at_addr s.heap a).0 (record { user = key; seq = seq })
unfolding cmp_at cmp_key cmp
cmp_at-entry s a key seq h = let (n, e) = get_elem?-some s.heap a h in ground arith

pub All-entries {κ} :
    (P : Key × Value → Type κ) (heap : List Node) (xs : List ℕ)
    → All (λ a. P (entry_at_addr heap a)) xs
    → All P (entries_of heap xs)
All-entries P heap [] h = tt
All-entries P heap (a ∷ xs) h = (h.0, All-entries P heap xs h.1)

pub All-addresses {κ} :
    (P : Key × Value → Type κ) (heap : List Node) (xs : List ℕ)
    → All P (entries_of heap xs)
    → All (λ a. P (entry_at_addr heap a)) xs
All-addresses P heap [] h = tt
All-addresses P heap (a ∷ xs) h = (h.0, All-addresses P heap xs h.1)

pub record IsCut (s : SkipList) (key : Bytes) (seq : ℕ) (order : List ℕ) : Type 0 where
  pub before : List ℕ
  pub after : List ℕ
  pub whole : before ++ after ≡ order
  pub lows : All (IsLow s key seq) before
  pub highs : All (IsHigh s key seq) after

module _ (s : SkipList) (key : Bytes) (seq : ℕ) where
  abbrev target : Key
  target = record { user = key; seq = seq }

  -- Behind a node that is not before the target, no node is.
  IsHigh-after :
      (a b : ℕ)
      → a < length s.heap
      → b < length s.heap
      → cmp (entry_at_addr s.heap a).0 (entry_at_addr s.heap b).0 ≡ Ordering.lt
      → IsHigh s key seq a
      → IsHigh s key seq b
  IsHigh-after a b ha hb ab h e = h (
      cmp_at-entry s a key seq ha ∙ cmp_trans _ _ target ab (sym (cmp_at-entry s b key seq hb) ∙ e))

  highs_after :
      (a : ℕ) (xs : List ℕ)
      → a < length s.heap
      → All (λ b. b < length s.heap) xs
      → All
          (λ (f : Key × Value). cmp (entry_at_addr s.heap a).0 f.0 ≡ Ordering.lt)
          (entries_of s.heap xs)
      → IsHigh s key seq a
      → All (IsHigh s key seq) xs
  highs_after a [] ha hs lt h = tt
  highs_after a (b ∷ xs) ha hs lt h =
      (IsHigh-after a b ha hs.0 lt.0 h, highs_after a xs ha hs.1 lt.1 h)

  pub cut :
      (xs : List ℕ)
      → All (λ a. a < length s.heap) xs
      → IsAscending (entries_of s.heap xs)
      → IsCut s key seq xs
  cut [] hs asc = record { before = []; after = []; whole = refl; lows = tt; highs = tt }
  cut (a ∷ xs) hs asc = go (cut xs hs.1 asc.1) (cmp_at s a key seq) refl
    where
      stop : IsHigh s key seq a → IsCut s key seq (a ∷ xs)
      stop h = record {
        before = [];
        after = a ∷ xs;
        whole = refl;
        lows = tt;
        highs = (h, highs_after a xs hs.0 hs.1 asc.0 h);
      }

      go : IsCut s key seq xs → (o : Ordering) → cmp_at s a key seq ≡ o → IsCut s key seq (a ∷ xs)
      go rest Ordering.lt e = record {
        before = a ∷ rest.before;
        after = rest.after;
        whole = ap (◌∷◌ a) rest.whole;
        lows = (e, rest.lows);
        highs = rest.highs;
      }
      go rest Ordering.eq e = stop (λ h. cc)
      go rest Ordering.gt e = stop (λ h. cc)
