-- ===== src/Common/Key.antt =====
-- common/src/key.rs. A Rust `String` is the list of its bytes, and comparing strings is comparing
-- their bytes in turn.
pub mod Order
use lowdb.Prelude.{Bool, true, false, ℕ, ◌+◌, ◌^◌, ◌<◌, compare, Ordering, [], ◌∷◌, length}
use lowdb.Prelude.Bytes.{Bytes}

-- The user's key and the sequence number of the write.
pub record Key : Type 0 where
  pub user : Bytes
  pub seq : ℕ

-- The size in bytes in memory, and on disk.
unfoldable pub heap_size : Key → ℕ
heap_size k = length k.user + 8

unfoldable pub disk_size : Key → ℕ
unfolding heap_size
disk_size k = 2 + heap_size k

-- `str::cmp`
unfoldable pub cmp_str : Bytes → Bytes → Ordering
cmp_str [] [] = Ordering.eq
cmp_str [] (b ∷ bs) = Ordering.lt
cmp_str (a ∷ as') [] = Ordering.gt
cmp_str (a ∷ as') (b ∷ bs) = elim (compare a b) [
  | Ordering.lt ↦ Ordering.lt
  | Ordering.eq ↦ cmp_str as' bs
  | Ordering.gt ↦ Ordering.gt
]

-- `Ordering::then`
abbrev pub then_with : Ordering → Ordering → Ordering
then_with Ordering.lt o = Ordering.lt
then_with Ordering.eq o = o
then_with Ordering.gt o = Ordering.gt

-- `Ord for Key`: the user's keys in order, and of one key the newest version first.
unfoldable pub cmp : Key → Key → Ordering
cmp a b = then_with (cmp_str a.user b.user) (compare b.seq a.seq)

-- `String` equality
abbrev pub same : Bytes → Bytes → Bool
same a b = elim (cmp_str a b) [ Ordering.lt ↦ false | Ordering.eq ↦ true | Ordering.gt ↦ false ]

-- `<` of orderings
abbrev pub is_less : Ordering → Bool
is_less Ordering.lt = true
is_less Ordering.eq = false
is_less Ordering.gt = false

abbrev pub is_greater : Ordering → Bool
is_greater Ordering.lt = false
is_greater Ordering.eq = false
is_greater Ordering.gt = true
