-- ===== src/Memtable/Sorted.antt =====
-- What a memory table stands for: a list of entries with strictly ascending keys.
pub mod Merge
pub mod Newest
use lowdb.Prelude.{
  ℕ, ◌≡◌, refl, Bool, true, false, List, [], ◌∷◌, ◌++◌, All, All-imp, arith, Ordering,
  Ordering-cases, inl, inr, some, none, Option,
}
use lowdb.Prelude.Bytes.{Bytes}
use lowdb.Common.Key.{Key, cmp, cmp_str}
use lowdb.Common.Key.Order.{cmp-flip, cmp_trans}
use lowdb.Common.Value.{Value}

-- Strictly ascending keys.
abbrev pub IsAscending : List (Key × Value) → Type 0
IsAscending [] = Unit
IsAscending (e ∷ es) = All (λ (f : Key × Value). cmp e.0 f.0 ≡ Ordering.lt) es × IsAscending es

-- The abstract list: sorted insertion, where a key that is there already stays.
unfoldable pub insert_entry : Key → Value → List (Key × Value) → List (Key × Value)
insert_entry key value [] = (key, value) ∷ []
insert_entry key value ((k, v) ∷ es) = elim (cmp k key) [
  | Ordering.lt ↦ (k, v) ∷ insert_entry key value es
  | Ordering.eq ↦ (k, v) ∷ es
  | Ordering.gt ↦ (key, value) ∷ ((k, v) ∷ es)
]

unfoldable pub has_key : Key → List (Key × Value) → Bool
has_key key [] = false
has_key key ((k, v) ∷ es) = elim (cmp k key) [
  | Ordering.lt ↦ has_key key es
  | Ordering.eq ↦ true
  | Ordering.gt ↦ false
]

abbrev pub AllLow : Key → List (Key × Value) → Type 0
AllLow key es = All (λ (e : Key × Value). cmp e.0 key ≡ Ordering.lt) es

pub insert_entry-append_low :
    (key : Key) (value : Value) (xs ys : List (Key × Value))
    → AllLow key xs
    → insert_entry key value (xs ++ ys) ≡ xs ++ insert_entry key value ys
unfolding insert_entry
insert_entry-append_low key value [] ys h = refl
insert_entry-append_low key value ((k, v) ∷ xs) ys h =
    ground (arith, insert_entry-append_low key value xs ys h.1)

pub has_key-append_low :
    (key : Key) (xs ys : List (Key × Value))
    → AllLow key xs
    → has_key key (xs ++ ys) ≡ has_key key ys
unfolding has_key
has_key-append_low key [] ys h = refl
has_key-append_low key ((k, v) ∷ xs) ys h = ground (arith, has_key-append_low key xs ys h.1)

pub insert_entry_known :
    (key : Key) (value : Value) (es : List (Key × Value))
    → has_key key es ≡ true
    → insert_entry key value es ≡ es
unfolding insert_entry has_key
insert_entry_known key value [] h = cc
insert_entry_known key value ((k, v) ∷ es) h = ground (arith, insert_entry_known key value es)

pub All-insert_entry {κ} :
    (P : Key × Value → Type κ) (key : Key) (value : Value) (es : List (Key × Value))
    → P (key, value)
    → All P es
    → All P (insert_entry key value es)
unfolding insert_entry
All-insert_entry P key value [] p h = (p, tt)
All-insert_entry P key value ((k, v) ∷ es) p h = elim (Ordering-cases (cmp k key)) [
  | inl e ↦ rw (insert_entry, e) (h.0, All-insert_entry P key value es p h.1)
  | inr (inl e) ↦ rw (insert_entry, e) h
  | inr (inr e) ↦ rw (insert_entry, e) (p, h)
]

pub insert_entry-IsAscending :
    (key : Key) (value : Value) (es : List (Key × Value))
    → IsAscending es
    → IsAscending (insert_entry key value es)
unfolding insert_entry
insert_entry-IsAscending key value [] h = (tt, tt)
insert_entry-IsAscending key value ((k, v) ∷ es) (h, hs) = elim (Ordering-cases (cmp k key)) [
  | inl e ↦
      rw (insert_entry, e)
        (
          All-insert_entry (λ (f : Key × Value). cmp k f.0 ≡ Ordering.lt) key value es e h,
          insert_entry-IsAscending key value es hs,
        )
  | inr (inl e) ↦ rw (insert_entry, e) (h, hs)
  | inr (inr e) ↦
      let less : cmp key k ≡ Ordering.lt = rw (cmp-flip k key, e) in
      rw (insert_entry, e) ((less, All-imp _ _ (λ f lt. cmp_trans key k f.0 less lt) es h), (h, hs))
]

abbrev pub entry_if : Bytes → Key → Value → Option (Key × Value)
entry_if key k v = elim (cmp_str k.user key) [
  | Ordering.lt ↦ none
  | Ordering.eq ↦ some (k, v)
  | Ordering.gt ↦ none
]

-- The first entry at or behind `(key, snapshot)`, if it is one of `key`.
unfoldable pub lookup_entry : Bytes → ℕ → List (Key × Value) → Option (Key × Value)
lookup_entry key snapshot [] = none
lookup_entry key snapshot ((k, v) ∷ es) =
    let rest = lookup_entry key snapshot es in
    elim (cmp k (record { user = key; seq = snapshot })) [
      | Ordering.lt ↦ rest
      | Ordering.eq ↦ entry_if key k v
      | Ordering.gt ↦ entry_if key k v
    ]

pub lookup_entry-append_low :
    (key : Bytes) (snapshot : ℕ) (xs ys : List (Key × Value))
    → AllLow (record { user = key; seq = snapshot }) xs
    → lookup_entry key snapshot (xs ++ ys) ≡ lookup_entry key snapshot ys
unfolding lookup_entry
lookup_entry-append_low key snapshot [] ys h = refl
lookup_entry-append_low key snapshot ((k, v) ∷ xs) ys h =
    ground (arith, lookup_entry-append_low key snapshot xs ys h.1)
