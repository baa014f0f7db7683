-- ===== src/Memtable/Table/Reads.antt =====
-- What a read of a memory table returns, in terms of the entries it holds.
use lowdb.Prelude.{
  OneOf, ℕ, ◌≤◌, ◌<◌, ◌≡◌, ◌≢◌, refl, ap, sym, subst, ◌∙◌, List, [], ◌∷◌, All, All-imp, arith,
  Ordering, some, none, Option, inl, inr, Ordering-cases,
}
use lowdb.Prelude.Bytes.{Bytes}
use lowdb.Common.Key.{Key, cmp, cmp_str}
use lowdb.Common.Key.Order.{cmp_str_refl, eq_of_cmp_str}
use lowdb.Common.Value.{Value, set, delete}
use lowdb.Common.Lookup.{Lookup, found, deleted, absent}
use lowdb.Memtable.Sorted.{IsAscending, insert_entry, lookup_entry, entry_if}
use lowdb.Memtable.Sorted.Merge.{insert_all}
use lowdb.Memtable.SkipList
use lowdb.Memtable.SkipList.{Rng}
use lowdb.Memtable.SkipList.Lookup.{
  insert-IsValid, iter-insert, iter-IsAscending, get_entry_at_lem, new-IsValid,
}
use lowdb.Memtable.SkipList.Lookup
use lowdb.Memtable.Table.{MemTable, new, put, put_all, get_snap, as_lookup, iter}

abbrev pub IsValid : MemTable → Type 0
IsValid t = Lookup.IsValid t.skip_list

-- No version of `key` up to `snapshot` is newer than `bound`; there is none at all.
abbrev pub NoneNewer : Bytes → ℕ → ℕ → List (Key × Value) → Type 0
NoneNewer key snapshot bound es =
    All (λ (e : Key × Value). e.0.user ≡ key → e.0.seq ≤ snapshot → e.0.seq ≤ bound) es

abbrev pub NoneVisible : Bytes → ℕ → List (Key × Value) → Type 0
NoneVisible key snapshot es = All (λ (e : Key × Value). e.0.user ≡ key → snapshot < e.0.seq) es

-- What a lookup in a list of entries is to return: the newest version of the key that the snapshot
-- may see.
abbrev pub IsNewest : Bytes → ℕ → List (Key × Value) → Option (Key × Value) → Type 0
IsNewest key snapshot es none = NoneVisible key snapshot es
IsNewest key snapshot es (some e) =
    OneOf e es × (e.0.user ≡ key) × (e.0.seq ≤ snapshot) × NoneNewer key snapshot e.0.seq es

hidden :
    (k : Key) (key : Bytes) (s : ℕ)
    → cmp k (record { user = key; seq = s }) ≡ Ordering.lt
    → k.user ≡ key
    → s < k.seq
unfolding cmp
hidden k key s h e =
    let same : cmp_str k.user key ≡ Ordering.eq = rw e (cmp_str_refl key) in ground arith

visible :
    (k : Key) (key : Bytes) (s : ℕ)
    → cmp k (record { user = key; seq = s }) ≢ Ordering.lt
    → cmp_str k.user key ≡ Ordering.eq
    → k.seq ≤ s
unfolding cmp
visible k key s h e = ground arith

-- Behind a key of a higher user key there is none of the lower one.
pub other_user :
    (k f : Key) (key : Bytes)
    → cmp_str k.user key ≡ Ordering.gt
    → cmp k f ≡ Ordering.lt
    → f.user ≢ key
unfolding cmp
other_user k f key h lt e = let same : cmp_str k.user f.user ≡ Ordering.gt = rw e h in ground arith

IsNewest-here :
    (k : Key) (v : Value) (es : List (Key × Value)) (key : Bytes) (s : ℕ)
    → All (λ (f : Key × Value). cmp k f.0 ≡ Ordering.lt) es
    → cmp k (record { user = key; seq = s }) ≢ Ordering.lt
    → IsNewest key s ((k, v) ∷ es) (entry_if key k v)
IsNewest-here k v es key s asc h = elim (Ordering-cases (cmp_str k.user key)) [
  | inl e ↦ absurd (h (unfold cmp in rw e refl))
  | inr (inl e) ↦
      let same : k.user ≡ key = eq_of_cmp_str k.user key e in
      let old : (f : Key × Value)
          → cmp k f.0 ≡ Ordering.lt
          → f.0.user ≡ key
          → f.0.seq ≤ s
          → f.0.seq ≤ k.seq =
        λ f lt u b. omega (arith, hidden k f.0.user f.0.seq lt (same ∙ sym u)) in
      let this : entry_if key k v ≡ some (k, v) = rw (e, entry_if) refl in
      subst (IsNewest key s ((k, v) ∷ es)) (sym this)
        (inl refl, same, visible k key s h e, ((λ u b. omega arith), All-imp _ _ old es asc))
  | inr (inr e) ↦
      let gone : (f : Key × Value) → cmp k f.0 ≡ Ordering.lt → f.0.user ≡ key → s < f.0.seq =
        λ f lt u. absurd (other_user k f.0 key e lt u) in
      let first : k.user ≡ key → s < k.seq =
        λ u. let same : cmp_str k.user key ≡ Ordering.eq = rw u (cmp_str_refl key) in absurd (cc) in
      let this : entry_if key k v ≡ none = rw (e, entry_if) refl in
      subst (IsNewest key s ((k, v) ∷ es)) (sym this) (first, All-imp _ _ gone es asc)
]

IsNewest-later :
    (k : Key) (v : Value) (es : List (Key × Value)) (key : Bytes) (s : ℕ) (r : Option (Key × Value))
    → cmp k (record { user = key; seq = s }) ≡ Ordering.lt
    → IsNewest key s es r
    → IsNewest key s ((k, v) ∷ es) r
IsNewest-later k v es key s none h n = (hidden k key s h, n)
IsNewest-later k v es key s (some e) h (m, u, b, n) =
    (inr m, u, b, ((λ same low. omega (arith, hidden k key s h same)), n))

-- A scan of ascending entries returns the newest version that the snapshot may see, or nothing where
-- every version of the key is newer than the snapshot.
pub lookup_entry-IsNewest :
    (es : List (Key × Value)) (key : Bytes) (s : ℕ)
    → IsAscending es
    → IsNewest key s es (lookup_entry key s es)
unfolding lookup_entry
lookup_entry-IsNewest [] key s asc = tt
lookup_entry-IsNewest ((k, v) ∷ es) key s asc =
    elim (Ordering-cases (cmp k (record { user = key; seq = s }))) [
      | inl e ↦
          rw (e, lookup_entry)
            (IsNewest-later k v es key s (lookup_entry key s es) e
              (lookup_entry-IsNewest es key s asc.1))
      | inr (inl e) ↦ rw (e, lookup_entry) (IsNewest-here k v es key s asc.0 (λ x. cc))
      | inr (inr e) ↦ rw (e, lookup_entry) (IsNewest-here k v es key s asc.0 (λ x. cc))
    ]

-- What a value says of its key.
abbrev pub says : Option (Key × Value) → Lookup
says none = absent
says (some (k, set v)) = found v
says (some (k, delete)) = deleted

-- A read of a well-formed table is a scan of its entries.
pub get_snap_lem :
    (t : MemTable) (key : Bytes) (snapshot : ℕ)
    → IsValid t
    → get_snap t key snapshot ≡ says (lookup_entry key snapshot (iter t))
unfolding get_snap iter SkipList.get_at
get_snap_lem t key snapshot v =
    ap (λ r. as_lookup (elim r [ none ↦ none | some e ↦ some e.1 ]))
      (get_entry_at_lem t.skip_list key snapshot v)
    ∙ says_lem (lookup_entry key snapshot (SkipList.iter t.skip_list))
  where
    says_lem :
        (r : Option (Key × Value)) → as_lookup (elim r [ none ↦ none | some e ↦ some e.1 ]) ≡ says r
    says_lem none = refl
    says_lem (some (k, set w)) = refl
    says_lem (some (k, delete)) = refl

pub entries-IsAscending : (t : MemTable) → IsValid t → IsAscending (iter t)
unfolding iter
entries-IsAscending t v = (iter-IsAscending t.skip_list v).0

-- A read of a well-formed table at a snapshot returns what the newest version says that the snapshot
-- may see: its value, `deleted` for a tombstone, and `absent` where there is no such version.
pub get_snap-IsNewest :
    (t : MemTable) (key : Bytes) (snapshot : ℕ)
    → IsValid t
    → (r : Option (Key × Value)) × IsNewest key snapshot (iter t) r
      × (get_snap t key snapshot ≡ says r)
get_snap-IsNewest t key snapshot v = (
  lookup_entry key snapshot (iter t),
  lookup_entry-IsNewest (iter t) key snapshot (entries-IsAscending t v),
  get_snap_lem t key snapshot v,
)

-- `put` keeps a table well formed and inserts its entry by the order of the keys; where the key and
-- its sequence number are there already, the table keeps the entry that it has.
pub iter-put :
    (t : MemTable) (key : Key) (value : Value)
    → IsValid t
    → IsValid (put key value t) × (iter (put key value t) ≡ insert_entry key value (iter t))
unfolding put iter
iter-put t key value v =
    (insert-IsValid t.skip_list key value v, (iter-insert t.skip_list key value v).0)

-- A new table is well formed and holds nothing.
pub iter-new : (id : ℕ) (rng : Rng) → IsValid (new id rng) × (iter (new id rng) ≡ [])
unfolding new iter
iter-new id rng =
    (new-IsValid rng, unfold SkipList.new SkipList.iter SkipList.iter_from SkipList.load in refl)

-- Putting entries in turn inserts each of them.
pub iter-put_all :
    (kvs : List (Key × Value)) (t : MemTable)
    → IsValid t
    → IsValid (put_all kvs t) × (iter (put_all kvs t) ≡ insert_all kvs (iter t))
unfolding put_all insert_all
iter-put_all [] t v = (v, refl)
iter-put_all ((k, w) ∷ kvs) t v =
    let (v', e) = iter-put t k w v in
    let (v'', e') = iter-put_all kvs (put k w t) v' in (v'', e' ∙ ap (insert_all kvs) e)
