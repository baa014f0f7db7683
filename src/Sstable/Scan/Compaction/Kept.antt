-- ===== src/Sstable/Scan/Compaction/Kept.antt =====
-- Which entries a compaction keeps of a scan in ascending order (sstable/src/scan/compaction.rs).
use lowdb.Prelude.{
  ℕ, suc, length, ◌<◌, ◌≤◌, ◌≡◌, ◌≢◌, ◌⊎◌, ◌↔◌, refl, ap, sym, subst, ◌∙◌, inl, inr, Bool-cases,
  true, false, Ordering, Option, List, [], ◌∷◌, All, All-imp, arith,
}
use lowdb.Common.Key.{Key, cmp, cmp_str, same}
use lowdb.Common.Key.Order.{cmp_str_refl, cmp_str-flip, cmp_str_trans, eq_of_cmp_str, less-IsBefore}
use lowdb.Common.Value.{is_delete}
use lowdb.Common.Error.{DbResult, ok}
use lowdb.Memtable.Sorted.{IsAscending}
use lowdb.Sstable.Table.Layout.{Entry}
use lowdb.Sstable.Scan.Compaction.{CompactionScan, compaction_new, compaction_next}
use lowdb.Sstable.Scan.Compaction.Yields.{compacted_from, compacted, Yields, compaction-Yields}

abbrev pub IsIn : Entry → List Entry → Type 0
IsIn e [] = ⊥
IsIn e (x ∷ xs) = (e ≡ x) ⊎ IsIn e xs

-- No entry of the same user's key is newer.
abbrev pub IsNewestOf : Entry → List Entry → Type 0
IsNewestOf e es = All (λ (x : Entry). x.0.user ≡ e.0.user → x.0.seq ≤ e.0.seq) es

-- No entry has a later user's key.
abbrev pub IsLastKey : Entry → List Entry → Type 0
IsLastKey e es = All (λ (x : Entry). cmp_str e.0.user x.0.user ≢ Ordering.lt) es

-- What is to be kept: the newest entry of a user's key, if it is a value or the key is the last.
abbrev pub IsKept : Entry → List Entry → Type 0
IsKept e es = IsIn e es × IsNewestOf e es × ((is_delete e.1 ≡ false) ⊎ IsLastKey e es)

All-at : (P : Entry → Type 0) (e : Entry) (es : List Entry) → All P es → IsIn e es → P e
All-at P e [] h m = elim m [ ]
All-at P e (x ∷ es) (h, hs) (inl same_entry) = subst P (sym same_entry) h
All-at P e (x ∷ es) (h, hs) (inr m) = All-at P e es hs m

not_itself : (k : Key) → cmp_str k.user k.user ≢ Ordering.lt
not_itself k h = let here = cmp_str_refl k.user in cc

-- Entries behind one of a later user's key have later user's keys.
later_keys :
    (c x : Key) (es : List Entry)
    → cmp_str c.user x.user ≡ Ordering.lt
    → All (λ (y : Entry). cmp x y.0 ≡ Ordering.lt) es
    → All (λ (y : Entry). cmp_str c.user y.0.user ≡ Ordering.lt) es
later_keys c x es lt h = All-imp _ _ (λ y less. behind y.0 (less-IsBefore x y.0 less)) es h
  where
    behind :
        (y : Key)
        → (cmp_str x.user y.user ≡ Ordering.lt) ⊎ ((x.user ≡ y.user) × (y.seq < x.seq))
        → cmp_str c.user y.user ≡ Ordering.lt
    behind y (inl less) = cmp_str_trans c.user x.user y.user lt less
    behind y (inr (same_user, _)) = rw same_user at lt

-- An entry in front whose user's key is lower than all behind it.
module _ (c : Entry) (es : List Entry)
    (later : All (λ (y : Entry). cmp_str c.0.user y.0.user ≡ Ordering.lt) es) where
  IsKept-behind : (e : Entry) → IsKept e es → IsKept e (c ∷ es)
  IsKept-behind e (m, newest, survives) =
      let lt : cmp_str c.0.user e.0.user ≡ Ordering.lt = All-at _ e es later m in
      (
        inr m,
        ((λ same_user. absurd (not_itself e.0 (rw same_user at lt))), newest),
        last lt survives,
      )
    where
      last :
          cmp_str c.0.user e.0.user ≡ Ordering.lt
          → (is_delete e.1 ≡ false) ⊎ IsLastKey e es
          → (is_delete e.1 ≡ false) ⊎ IsLastKey e (c ∷ es)
      last lt (inl live) = inl live
      last lt (inr all) = inr (
        (λ back.
            let turned = cmp_str-flip c.0.user e.0.user in
            absurd (ground (arith, turned, lt, back))),
        all,
      )

  IsKept-rest : (e : Entry) → IsIn e es → IsKept e (c ∷ es) → IsKept e es
  IsKept-rest e m (_, (_, newest), survives) = (m, newest, last survives)
    where
      last :
          (is_delete e.1 ≡ false) ⊎ IsLastKey e (c ∷ es) → (is_delete e.1 ≡ false) ⊎ IsLastKey e es
      last (inl live) = inl live
      last (inr (_, all)) = inr all

  first-IsKept : is_delete c.1 ≡ false → IsKept c (c ∷ es)
  first-IsKept live = (
    inl refl,
    (
      (λ _. omega arith),
      All-imp _ _ (λ y lt same_user. absurd (not_itself c.0 (rw same_user at lt))) es later,
    ),
    inl live,
  )

-- An older entry of the same user's key behind the first.
module _ (c x : Entry) (es : List Entry) (user_of : c.0.user ≡ x.0.user)
    (older : x.0.seq < c.0.seq) where
  IsKept-past_older : (e : Entry) → IsKept e (c ∷ es) → IsKept e (c ∷ x ∷ es)
  IsKept-past_older e (m, (newest, all), survives) = (
    within m,
    (newest, ((λ same_user. let le = newest (user_of ∙ same_user) in omega arith), all)),
    last survives,
  )
    where
      within : IsIn e (c ∷ es) → IsIn e (c ∷ x ∷ es)
      within (inl here) = inl here
      within (inr m) = inr (inr m)

      last :
          (is_delete e.1 ≡ false) ⊎ IsLastKey e (c ∷ es)
          → (is_delete e.1 ≡ false) ⊎ IsLastKey e (c ∷ x ∷ es)
      last (inl live) = inl live
      last (inr (first, all)) = inr (first, ((λ less. first (rw user_of less)), all))

  IsKept-not_older : (e : Entry) → IsKept e (c ∷ x ∷ es) → IsKept e (c ∷ es)
  IsKept-not_older e (m, (newest, (_, all)), survives) = (within m, (newest, all), last survives)
    where
      within : IsIn e (c ∷ x ∷ es) → IsIn e (c ∷ es)
      within (inl here) = inl here
      within (inr (inl here)) =
          let le = newest (user_of ∙ sym (ap (λ (y : Entry). y.0.user) here)) in
          let at_x : e.0.seq ≡ x.0.seq = ap (λ (y : Entry). y.0.seq) here in absurd (omega arith)
      within (inr (inr m)) = inr m

      last :
          (is_delete e.1 ≡ false) ⊎ IsLastKey e (c ∷ x ∷ es)
          → (is_delete e.1 ≡ false) ⊎ IsLastKey e (c ∷ es)
      last (inl live) = inl live
      last (inr (first, (_, all))) = inr (first, all)

-- An entry is left by the compaction of `c` and what is behind it just when it is to be kept.
IsKept-from :
    (c : Entry) (es : List Entry)
    → IsAscending (c ∷ es)
    → (e : Entry) → IsIn e (compacted_from c es) ↔ IsKept e (c ∷ es)
unfolding compacted_from
IsKept-from c [] asc e = (to, λ k. k.0)
  where
    to : IsIn e (c ∷ []) → IsKept e (c ∷ [])
    to (inl here) =
        subst (λ (y : Entry). IsKept y (c ∷ [])) (sym here)
          (inl refl, ((λ _. omega arith), tt), inr (not_itself c.0, tt))
    to (inr m) = elim m [ ]
IsKept-from c (x ∷ es) ((less, lows), (xs, asc)) e = elim (Bool-cases (same c.0.user x.0.user)) [
  | inl s ↦
      let user_of : c.0.user ≡ x.0.user = eq_of_cmp_str c.0.user x.0.user (ground (arith, s)) in
      let older = older_of less user_of in
      let (to, from) = IsKept-from c es (lows, asc) e in
      rw (compacted_from, s)
        (
          λ m. IsKept-past_older c x es user_of older e (to m),
          λ k. from (IsKept-not_older c x es user_of older e k),
        )
  | inr other ↦
      let lt = earlier less other in
      let later : All (λ (y : Entry). cmp_str c.0.user y.0.user ≡ Ordering.lt) (x ∷ es) =
        (lt, later_keys c.0 x.0 es lt xs) in
      let (to, from) = IsKept-from x es (xs, asc) e in
      elim (Bool-cases (is_delete c.1)) [
        | inl d ↦
            rw (compacted_from, other, d)
              (
                λ m. IsKept-behind c (x ∷ es) later e (to m),
                λ k. from (IsKept-rest c (x ∷ es) later e (not_first d lt k) k),
              )
        | inr live ↦ rw (compacted_from, other, live) (on_first later live to, within later from)
      ]
]
  where
    older_of : cmp c.0 x.0 ≡ Ordering.lt → c.0.user ≡ x.0.user → x.0.seq < c.0.seq
    older_of less user_of = by_case (less-IsBefore c.0 x.0 less)
      where
        by_case :
            (cmp_str c.0.user x.0.user ≡ Ordering.lt)
              ⊎ ((c.0.user ≡ x.0.user) × (x.0.seq < c.0.seq))
            → x.0.seq < c.0.seq
        by_case (inl lt) = absurd (not_itself x.0 (rw user_of at lt))
        by_case (inr (_, older)) = older

    earlier :
        cmp c.0 x.0 ≡ Ordering.lt
        → same c.0.user x.0.user ≡ false
        → cmp_str c.0.user x.0.user ≡ Ordering.lt
    earlier less other = by_case (less-IsBefore c.0 x.0 less)
      where
        by_case :
            (cmp_str c.0.user x.0.user ≡ Ordering.lt)
              ⊎ ((c.0.user ≡ x.0.user) × (x.0.seq < c.0.seq))
            → cmp_str c.0.user x.0.user ≡ Ordering.lt
        by_case (inl lt) = lt
        by_case (inr (user_of, _)) =
            let here : cmp_str c.0.user x.0.user ≡ Ordering.eq =
              rw user_of (cmp_str_refl x.0.user) in
            absurd (ground (arith, here, other))

    not_first :
        is_delete c.1 ≡ true
        → cmp_str c.0.user x.0.user ≡ Ordering.lt
        → IsKept e (c ∷ x ∷ es)
        → IsIn e (x ∷ es)
    not_first d lt (inr m, _, _) = m
    not_first d lt (inl here, _, inl live) =
        let deleted : is_delete e.1 ≡ true = rw here d in absurd (cc)
    not_first d lt (inl here, _, inr (_, (back, _))) = absurd (back (rw here lt))

    on_first :
        All (λ (y : Entry). cmp_str c.0.user y.0.user ≡ Ordering.lt) (x ∷ es)
        → is_delete c.1 ≡ false
        → (IsIn e (compacted_from x es) → IsKept e (x ∷ es))
        → IsIn e (c ∷ compacted_from x es)
        → IsKept e (c ∷ x ∷ es)
    on_first later live to (inl here) =
        subst (λ (y : Entry). IsKept y (c ∷ x ∷ es)) (sym here) (first-IsKept c (x ∷ es) later live)
    on_first later live to (inr m) = IsKept-behind c (x ∷ es) later e (to m)

    within :
        All (λ (y : Entry). cmp_str c.0.user y.0.user ≡ Ordering.lt) (x ∷ es)
        → (IsKept e (x ∷ es) → IsIn e (compacted_from x es))
        → IsKept e (c ∷ x ∷ es)
        → IsIn e (c ∷ compacted_from x es)
    within later from (inl here, _, _) = inl here
    within later from (inr m, newest, survives) =
        inr (from (IsKept-rest c (x ∷ es) later e m (inr m, newest, survives)))

compacted_from-All :
    (P : Entry → Type 0) (c : Entry) (es : List Entry)
    → All P (c ∷ es)
    → All P (compacted_from c es)
unfolding compacted_from
compacted_from-All P c [] h = h
compacted_from-All P c (x ∷ es) (h, (hx, hs)) =
    let same_key = compacted_from-All P c es (h, hs) in
    let rest = compacted_from-All P x es (hx, hs) in
    elim (Bool-cases (same c.0.user x.0.user)) [
      | inl s ↦ rw (compacted_from, s) same_key
      | inr other ↦ elim (Bool-cases (is_delete c.1)) [
        | inl d ↦ rw (compacted_from, other, d) rest
        | inr live ↦ rw (compacted_from, other, live) (h, rest)
      ]
    ]

compacted_from-IsAscending :
    (c : Entry) (es : List Entry) → IsAscending (c ∷ es) → IsAscending (compacted_from c es)
unfolding compacted_from
compacted_from-IsAscending c [] asc = asc
compacted_from-IsAscending c (x ∷ es) ((less, lows), (xs, asc)) =
    let same_key = compacted_from-IsAscending c es (lows, asc) in
    let rest = compacted_from-IsAscending x es (xs, asc) in
    let first = compacted_from-All (λ (y : Entry). cmp c.0 y.0 ≡ Ordering.lt) x es (less, lows) in
    elim (Bool-cases (same c.0.user x.0.user)) [
      | inl s ↦ rw (compacted_from, s) same_key
      | inr other ↦ elim (Bool-cases (is_delete c.1)) [
        | inl d ↦ rw (compacted_from, other, d) rest
        | inr live ↦ rw (compacted_from, other, live) (first, rest)
      ]
    ]

compacted-IsAscending : (es : List Entry) → IsAscending es → IsAscending (compacted es)
unfolding compacted
compacted-IsAscending [] asc = tt
compacted-IsAscending (c ∷ es) asc = compacted_from-IsAscending c es asc

IsKept-compacted :
    (es : List Entry) → IsAscending es → (e : Entry) → IsIn e (compacted es) ↔ IsKept e es
unfolding compacted
IsKept-compacted [] asc e = ((λ m. elim m [ ]), λ k. k.0)
IsKept-compacted (c ∷ es) asc e = IsKept-from c es asc e

-- Where a scan yields entries in ascending order of their keys, fewer than the fuel, a compaction of it starts
-- without an error and yields, in ascending order, just these of its entries: the newest of each user's key,
-- if it is a value or the user's key is the last.
pub compaction_keeps :
    {S : Type 0} (next : S → DbResult (Option Entry × S)) (fuel : ℕ) (scan : S) (es : List Entry)
    → length es < suc fuel
    → Yields next scan es
    → IsAscending es
    → (c : CompactionScan next) × ((ys : List Entry) × ((compaction_new next scan ≡ ok c)
          × Yields (compaction_next next fuel) c ys
          × IsAscending ys
          × ((e : Entry)
              → IsIn e ys
                ↔ (IsIn e es × IsNewestOf e es × ((is_delete e.1 ≡ false) ⊎ IsLastKey e es)))))
compaction_keeps next fuel scan es few y asc =
    let (c, started, yields) = compaction-Yields next fuel scan es few y in
    (c, (compacted es, (started, yields, compacted-IsAscending es asc, IsKept-compacted es asc)))
