-- ===== src/Memtable/Sorted/Merge.antt =====
-- Inserting a list of entries in turn, and that sorting them first makes no difference.
use lowdb.Prelude.{
  ◌≡◌, ◌≢◌, refl, ap, sym, ◌∙◌, true, List, [], ◌∷◌, All, All-imp, arith, Ordering, Ordering-cases,
  inl, inr,
}
use lowdb.Common.Key.{Key, cmp}
use lowdb.Common.Key.Order.{cmp_refl, cmp-flip, cmp_trans, eq_of_cmp, flip}
use lowdb.Common.Value.{Value}
use lowdb.Memtable.Sorted.{
  IsAscending, insert_entry, has_key, insert_entry_known, insert_entry-IsAscending,
}

-- Each entry in its place, the first of the list at first.
unfoldable pub insert_all : List (Key × Value) → List (Key × Value) → List (Key × Value)
insert_all [] es = es
insert_all ((k, v) ∷ kvs) es = insert_all kvs (insert_entry k v es)

pub insert_all-IsAscending :
    (kvs es : List (Key × Value)) → IsAscending es → IsAscending (insert_all kvs es)
unfolding insert_all
insert_all-IsAscending [] es h = h
insert_all-IsAscending ((k, v) ∷ kvs) es h =
    insert_all-IsAscending kvs (insert_entry k v es) (insert_entry-IsAscending k v es h)

greater : (x k k' : Key) → cmp k k' ≡ Ordering.lt → cmp x k' ≢ Ordering.lt → cmp x k ≡ Ordering.gt
greater x k k' less h = elim (Ordering-cases (cmp x k')) [
  | inl e ↦ absurd (h e)
  | inr (inl e) ↦ rw (eq_of_cmp x k' e) (cmp-flip k k' ∙ ap flip less)
  | inr (inr e) ↦
      let before : cmp k' x ≡ Ordering.lt = cmp-flip x k' ∙ ap flip e in
      cmp-flip k x ∙ ap flip (cmp_trans k k' x less before)
]

insert_entry_comm :
    (k k' : Key) (v v' : Value) (es : List (Key × Value))
    → cmp k k' ≡ Ordering.lt
    → insert_entry k v (insert_entry k' v' es) ≡ insert_entry k' v' (insert_entry k v es)
unfolding insert_entry
insert_entry_comm k k' v v' [] less =
    let more : cmp k' k ≡ Ordering.gt = cmp-flip k k' ∙ ap flip less in
    rw (insert_entry, more, less)
insert_entry_comm k k' v v' ((x, w) ∷ es) less =
    let more : cmp k' k ≡ Ordering.gt = cmp-flip k k' ∙ ap flip less in
    let rest = insert_entry_comm k k' v v' es less in
    elim (Ordering-cases (cmp x k')) [
      | inl e ↦ ground (arith, rest, e, less, more)
      | inr (inl e) ↦
          let behind : cmp x k ≡ Ordering.gt = greater x k k' less (λ f. cc) in
          ground (arith, behind, e, less, more)
      | inr (inr e) ↦
          let behind : cmp x k ≡ Ordering.gt = greater x k k' less (λ f. cc) in
          ground (arith, behind, e, less, more)
    ]

has_key-insert_entry :
    (k : Key) (v : Value) (es : List (Key × Value)) → has_key k (insert_entry k v es) ≡ true
unfolding has_key insert_entry
has_key-insert_entry k v [] = rw (insert_entry, has_key, cmp_refl k)
has_key-insert_entry k v ((x, w) ∷ es) =
    let rest = has_key-insert_entry k v es in ground (arith, rest, cmp_refl k)

has_key-insert_other :
    (k k' : Key) (v : Value) (es : List (Key × Value))
    → has_key k es ≡ true
    → has_key k (insert_entry k' v es) ≡ true
unfolding has_key insert_entry
has_key-insert_other k k' v [] h = cc
has_key-insert_other k k' v ((x, w) ∷ es) h =
    let rest = has_key-insert_other k k' v es in
    elim (Ordering-cases (cmp x k')) [
      | inl e ↦ ground (arith, rest, e)
      | inr (inl e) ↦ ground (arith, e)
      | inr (inr e) ↦
          let before : cmp k' x ≡ Ordering.lt = cmp-flip x k' ∙ ap flip e in
          elim (Ordering-cases (cmp x k)) [
            | inl f ↦ ground (arith, e, f, cmp_trans k' x k before f)
            | inr (inl f) ↦
                let same : cmp k' k ≡ Ordering.lt = rw (← eq_of_cmp x k f) before in
                ground (arith, e, f, same)
            | inr (inr f) ↦ ground (arith, e, f)
          ]
    ]

has_key-insert_all :
    (k : Key) (kvs es : List (Key × Value))
    → has_key k es ≡ true
    → has_key k (insert_all kvs es) ≡ true
unfolding insert_all
has_key-insert_all k [] es h = h
has_key-insert_all k ((k', v) ∷ kvs) es h =
    has_key-insert_all k kvs (insert_entry k' v es) (has_key-insert_other k k' v es h)

insert_all-insert_low :
    (k : Key) (v : Value) (kvs es : List (Key × Value))
    → All (λ (e : Key × Value). cmp k e.0 ≡ Ordering.lt) kvs
    → insert_all kvs (insert_entry k v es) ≡ insert_entry k v (insert_all kvs es)
unfolding insert_all
insert_all-insert_low k v [] es h = refl
insert_all-insert_low k v ((k', v') ∷ kvs) es (h, hs) =
    ap (insert_all kvs) (sym (insert_entry_comm k k' v v' es h))
    ∙ insert_all-insert_low k v kvs (insert_entry k' v' es) hs

insert_all-insert_entry :
    (k : Key) (v : Value) (kvs es : List (Key × Value))
    → IsAscending kvs
    → insert_all (insert_entry k v kvs) es ≡ insert_entry k v (insert_all kvs es)
unfolding insert_all insert_entry
insert_all-insert_entry k v [] es h = refl
insert_all-insert_entry k v ((k', v') ∷ kvs) es (h, hs) = elim (Ordering-cases (cmp k' k)) [
  | inl e ↦ rw (insert_entry, e) (insert_all-insert_entry k v kvs (insert_entry k' v' es) hs)
  | inr (inl e) ↦
      let known : has_key k (insert_all kvs (insert_entry k' v' es)) ≡ true =
        has_key-insert_all k kvs (insert_entry k' v' es)
          (rw (← eq_of_cmp k' k e) (has_key-insert_entry k' v' es)) in
      rw (insert_entry, e)
        (sym (insert_entry_known k v (insert_all kvs (insert_entry k' v' es)) known))
  | inr (inr e) ↦
      let before : cmp k k' ≡ Ordering.lt = cmp-flip k' k ∙ ap flip e in
      rw (insert_entry, e)
        (insert_all-insert_low k v ((k', v') ∷ kvs) es
          (before, All-imp _ _ (λ f lt. cmp_trans k k' f.0 before lt) kvs h))
]

-- Entries that were sorted into a list of their own arrive at the same list as they do in turn.
pub insert_all-sorted :
    (kvs acc es : List (Key × Value))
    → IsAscending acc
    → insert_all (insert_all kvs acc) es ≡ insert_all kvs (insert_all acc es)
unfolding insert_all
insert_all-sorted [] acc es h = refl
insert_all-sorted ((k, v) ∷ kvs) acc es h =
    insert_all-sorted kvs (insert_entry k v acc) es (insert_entry-IsAscending k v acc h)
    ∙ ap (insert_all kvs) (insert_all-insert_entry k v acc es h)
