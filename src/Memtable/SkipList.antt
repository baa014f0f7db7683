-- ===== src/Memtable/SkipList.antt =====
-- memtable/src/list.rs and memtable/src/list/node.rs: the skip list on an explicit heap. A pointer is
-- the index of a node in the heap, or null. One thread runs: a `compare_exchange` then finds what
-- the same thread has just read, and its loop ends at the first round. The thread's random state
-- stands beside the list that draws from it.
pub mod Chain
pub mod Memory
pub mod Search
pub mod Link
pub mod Height
pub mod Cut
pub mod Allocated
pub mod Insert
pub mod Lookup
use Prim.Native.Nat.{bit_xor, bit_or}
use lowdb.Prelude.{
  ℕ, zero, suc, ◌+◌, ◌*◌, ◌/◌, ◌%◌, ◌^◌, ◌-◌, max, Ordering, Bool, true, false, ◌&&◌, Option, none,
  some, List, [], ◌∷◌, ◌++◌, length, get_elem?, get_or, set, replicate, ltb, ◌==◌, if◌then◌else◌,
  compare,
}
use lowdb.Prelude.Bytes.{Bytes}
use lowdb.Common.Key
use lowdb.Common.Key.{Key, cmp_str, then_with}
use lowdb.Common.Value
use lowdb.Common.Value.{Value}

-- `*mut Node`
abbrev pub Ptr : Type 0
Ptr = Option ℕ

pub record Node : Type 0 where
  pub key : Key
  pub value : Value
  pub tower : List Ptr

-- `thread_local! RNG` and `static SEED`
pub record Rng : Type 0 where
  pub cell : ℕ
  pub seed : ℕ

pub record SkipList : Type 0 where
  pub heap : List Node
  pub head : List Ptr
  pub max_height : ℕ
  pub len : ℕ
  pub mem_usage : ℕ
  pub rng : Rng

abbrev pub max_levels : ℕ
max_levels = 16

abbrev pub branching : ℕ
branching = 4

-- `size_of::<Node>()` and `size_of::<AtomicPtr<Node>>()` on a 64-bit target
abbrev pub node_size : ℕ
node_size = 72

abbrev pub ptr_size : ℕ
ptr_size = 8

unfoldable pub new : Rng → SkipList
new rng = record {
  heap = [];
  head = replicate max_levels none;
  max_height = 1;
  len = 0;
  mem_usage = 0;
  rng = rng;
}

unfoldable pub is_empty : SkipList → Bool
is_empty s = s.len == 0

-- one round of xorshift64; shifts to the left drop the bits above the 64th
unfoldable pub xorshift : ℕ → ℕ
xorshift x =
    let a = bit_xor x (x * 2 ^ 13 % 2 ^ 64) in
    let b = bit_xor a (a / 2 ^ 7) in bit_xor b (b * 2 ^ 17 % 2 ^ 64)

-- the `loop` of `random_height`, which ends at the latest when the height is `max_levels`
unfoldable pub grow : ℕ → ℕ → ℕ → ℕ × ℕ
grow zero height x = (height, x)
grow (suc fuel) height x =
    let x' = xorshift x in
    elim (ltb height max_levels && (x' % branching == 0)) [
      | true ↦ grow fuel (height + 1) x'
      | false ↦ (height, x')
    ]

abbrev pub golden : ℕ
golden = 0x9E37_79B9_7F4A_7C15

-- A thread that has not drawn yet takes its start from the shared seed.
unfoldable pub seeded : Rng → Rng
seeded r =
    if r.cell == 0 then record { cell = bit_or r.seed 1; seed = (r.seed + golden) % 2 ^ 64 } else r

unfoldable pub random_height : Rng → ℕ × Rng
unfolding grow seeded xorshift
random_height r =
    let r' = seeded r in
    let (height, x) = grow max_levels 1 r'.cell in (height, record r' { cell = x })

-- A null pointer stands for the head. (An index out of range would be a panic, and a dangling pointer
-- undefined behaviour; `IsValid` excludes both.)
unfoldable pub tower_at : List Node → ℕ → List Ptr
tower_at heap a = elim (get_elem? heap a) [ none ↦ [] | some n ↦ n.tower ]

unfoldable pub load : SkipList → Ptr → ℕ → Ptr
load s none level = get_or s.head level none
load s (some a) level = get_or (tower_at s.heap a) level none

unfoldable pub set_tower : List Node → ℕ → ℕ → Ptr → List Node
set_tower [] a level p = []
set_tower (n ∷ heap) zero level p = record n { tower = set n.tower level p } ∷ heap
set_tower (n ∷ heap) (suc a) level p = n ∷ set_tower heap a level p

unfoldable pub store : SkipList → Ptr → ℕ → Ptr → SkipList
store s none level p = record s { head = set s.head level p }
store s (some a) level p = record s { heap = set_tower s.heap a level p }

unfoldable pub cmp_key : Key → Bytes → ℕ → Ordering
cmp_key stored key seq = then_with (cmp_str stored.user key) (compare seq stored.seq)

unfoldable pub cmp_at : SkipList → ℕ → Bytes → ℕ → Ordering
cmp_at s a key seq = elim (get_elem? s.heap a) [
  | none ↦ Ordering.gt
  | some n ↦ cmp_key n.key key seq
]

-- the `while let` of `find` and of `seek`, at one level
unfoldable pub walk : SkipList → Bytes → ℕ → ℕ → ℕ → Ptr → Ptr → Ptr × Ptr
walk s key seq level zero pred curr = (pred, curr)
walk s key seq level (suc fuel) pred none = (pred, none)
walk s key seq level (suc fuel) pred (some a) = elim (cmp_at s a key seq) [
  | Ordering.lt ↦ walk s key seq level fuel (some a) (load s (some a) level)
  | Ordering.eq ↦ (pred, some a)
  | Ordering.gt ↦ (pred, some a)
]

-- Each round goes one node further, so the number of nodes bounds the rounds.
abbrev pub rounds : SkipList → ℕ
rounds s = suc (length s.heap)

-- the `for level in (0..max_h).rev()` of `find`
unfoldable pub descend : SkipList → Bytes → ℕ → ℕ → Ptr → List Ptr → List Ptr → List Ptr × List Ptr
descend s key seq zero pred preds succs = (preds, succs)
descend s key seq (suc level) pred preds succs =
    let (p, c) = walk s key seq level (rounds s) pred (load s pred level) in
    descend s key seq level p (set preds level p) (set succs level c)

unfoldable pub is_at : SkipList → Ptr → Bytes → ℕ → Bool
is_at s none key seq = false
is_at s (some a) key seq = elim (cmp_at s a key seq) [
  | Ordering.lt ↦ false
  | Ordering.eq ↦ true
  | Ordering.gt ↦ false
]

unfoldable pub find : SkipList → Bytes → ℕ → List Ptr → List Ptr → Bool × (List Ptr × List Ptr)
find s key seq preds succs =
    let (ps, cs) = descend s key seq s.max_height none preds succs in
    (is_at s (get_or cs 0 none) key seq, (ps, cs))

-- The stores of one level, and the levels from `level` on. (In the source the counters grow after
-- level 0; no other thread looks in between.)
unfoldable pub link_level : ℕ → List Ptr → List Ptr → ℕ → SkipList → SkipList
link_level node preds succs level s =
    store (store s (some node) level (get_or succs level none)) (get_or preds level none) level
      (some node)

unfoldable pub link : ℕ → ℕ → List Ptr → List Ptr → ℕ → SkipList → SkipList
link zero level preds succs node s = s
link (suc k) level preds succs node s =
    link k (level + 1) preds succs node (link_level node preds succs level s)

unfoldable pub node_heap_size : Node → ℕ
node_heap_size n =
    node_size + Key.heap_size n.key + Value.heap_size n.value + length n.tower * ptr_size

-- `Node::alloc`: the address of a new node is the end of the heap.
unfoldable pub alloc : Key → Value → ℕ → Node
alloc key value height = record { key = key; value = value; tower = replicate height none }

-- the height is drawn and the list grows to it before the search
unfoldable pub raise : SkipList → ℕ × SkipList
raise s =
    let (height, r) = random_height s.rng in
    (height, record s { max_height = max s.max_height height; rng = r })

-- `preds` and `succs` before the search
abbrev pub no_nodes : List Ptr
no_nodes = replicate max_levels none

-- The new node in the memory, with the counters. (The source counts it when level 0 is linked; no
-- other thread looks in between.)
abbrev pub with_node : SkipList → Node → SkipList
with_node s node = record s {
  heap = s.heap ++ node ∷ [];
  len = s.len + 1;
  mem_usage = s.mem_usage + node_heap_size node;
}

-- `insert` with its height drawn. A duplicate drops the node that was just allocated.
unfoldable pub insert_raised : Key → Value → ℕ → SkipList → Bool × SkipList
insert_raised key value height s =
    let (exact, arrays) = find s key.user key.seq no_nodes no_nodes in
    if exact then (false, s) else (
      true,
      link height 0 arrays.0 arrays.1 (length s.heap) (with_node s (alloc key value height)),
    )

unfoldable pub insert : Key → Value → SkipList → Bool × SkipList
insert key value s = let (height, s') = raise s in insert_raised key value height s'

-- the `for level in (0..max_h).rev()` of `seek`
unfoldable pub seek_from : SkipList → Bytes → ℕ → ℕ → Ptr → Ptr → Ptr
seek_from s key seq zero pred curr = curr
seek_from s key seq (suc level) pred curr =
    let (p, c) = walk s key seq level (rounds s) pred (load s pred level) in
    seek_from s key seq level p c

unfoldable pub seek : SkipList → Bytes → ℕ → Ptr
seek s key seq = seek_from s key seq s.max_height none none

unfoldable pub entry_at : SkipList → Ptr → Bytes → Option (Key × Value)
entry_at s none key = none
entry_at s (some a) key = elim (get_elem? s.heap a) [
  | none ↦ none
  | some n ↦ elim (cmp_str n.key.user key) [
    | Ordering.lt ↦ none
    | Ordering.eq ↦ some (n.key, n.value)
    | Ordering.gt ↦ none
  ]
]

unfoldable pub get_entry_at : SkipList → Bytes → ℕ → Option (Key × Value)
get_entry_at s key snapshot = entry_at s (seek s key snapshot) key

unfoldable pub get_at : SkipList → Bytes → ℕ → Option Value
get_at s key snapshot = elim (get_entry_at s key snapshot) [ none ↦ none | some e ↦ some e.1 ]

-- `Iter::next` until it ends
unfoldable pub iter_from : SkipList → ℕ → Ptr → List (Key × Value)
iter_from s zero curr = []
iter_from s (suc fuel) none = []
iter_from s (suc fuel) (some a) = elim (get_elem? s.heap a) [
  | none ↦ []
  | some n ↦ (n.key, n.value) ∷ iter_from s fuel (load s (some a) 0)
]

unfoldable pub iter : SkipList → List (Key × Value)
iter s = iter_from s (rounds s) (load s none 0)
