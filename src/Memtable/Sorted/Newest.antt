-- ===== src/Memtable/Sorted/Newest.antt =====
-- Inserting an entry whose sequence number no other is above.
use lowdb.Prelude.{
  ℕ, ◌≤◌, ◌<◌, ◌≡◌, ◌≢◌, refl, ap, ◌∙◌, sym, subst, false, ◌&&◌, ◌||◌, not, leb, List, [], ◌∷◌, All,
  arith, Ordering, Ordering-cases, inl, inr, some, Option, if◌then◌else◌,
}
use lowdb.Prelude.Bytes.{Bytes}
use lowdb.Common.Key.{Key, cmp, cmp_str, same}
use lowdb.Common.Key.Order.{cmp_str_refl, eq_of_cmp_str, cmp_str_trans, cmp_str-flip, flip}
use lowdb.Common.Value.{Value}
use lowdb.Memtable.Sorted.{insert_entry, All-insert_entry, lookup_entry, has_key}

abbrev pub UpTo : ℕ → List (Key × Value) → Type 0
UpTo n es = All (λ (e : Key × Value). e.0.seq ≤ n) es

pub insert_entry-UpTo :
    (j : Bytes) (n : ℕ) (v : Value) (es : List (Key × Value))
    → UpTo n es
    → UpTo n (insert_entry (record { user = j; seq = n }) v es)
insert_entry-UpTo j n v es h =
    All-insert_entry (λ (e : Key × Value). e.0.seq ≤ n) (record { user = j; seq = n }) v es
      (omega arith) h

-- What a lookup finds behind the insertion: the new entry where it has the key, the snapshot sees it,
-- and it was not there, and what it found before otherwise.
abbrev pub newest_or : Bytes → ℕ → Bytes → ℕ → Value → List (Key × Value) → Option (Key × Value)
newest_or key s j n v es =
    if same j key && leb n s && not (has_key (record { user = j; seq = n }) es)
    then some (record { user = j; seq = n }, v)
    else lookup_entry key s es

insert_own :
    (key : Bytes) (s n : ℕ) (v : Value) (es : List (Key × Value))
    → UpTo n es
    → lookup_entry key s (insert_entry (record { user = key; seq = n }) v es)
      ≡ newest_or key s key n v es
unfolding insert_entry lookup_entry has_key cmp
insert_own key s n v [] h = ground (arith, cmp_str_refl key)
insert_own key s n v ((k, w) ∷ es) (h, hs) =
    let rest = insert_own key s n v es hs in
    elim (Ordering-cases (cmp_str k.user key)) [
      | inl e ↦ ground (arith, rest, e, cmp_str_refl key)
      | inr (inl e) ↦ ground (arith, rest, e, cmp_str_refl key)
      | inr (inr e) ↦ ground (arith, rest, e, cmp_str_refl key)
    ]

behind_both :
    (a b c : Bytes)
    → cmp_str a b ≡ Ordering.gt
    → cmp_str b c ≡ Ordering.gt
    → cmp_str a c ≡ Ordering.gt
behind_both a b c e f =
    let first : cmp_str b a ≡ Ordering.lt = cmp_str-flip a b ∙ ap flip e in
    let second : cmp_str c b ≡ Ordering.lt = cmp_str-flip b c ∙ ap flip f in
    cmp_str-flip c a ∙ ap flip (cmp_str_trans c b a second first)

insert_other :
    (key j : Bytes) (s n : ℕ) (v : Value) (es : List (Key × Value))
    → cmp_str j key ≢ Ordering.eq
    → lookup_entry key s (insert_entry (record { user = j; seq = n }) v es) ≡ lookup_entry key s es
unfolding insert_entry lookup_entry has_key cmp
insert_other key j s n v [] h = ground (arith, h)
insert_other key j s n v ((k, w) ∷ es) h =
    let rest = insert_other key j s n v es h in
    elim (Ordering-cases (cmp_str k.user j)) [
      | inl e ↦ ground (arith, rest, e, h)
      | inr (inl e) ↦
          let moved : cmp_str k.user key ≡ cmp_str j key = rw (eq_of_cmp_str k.user j e) refl in
          ground (arith, rest, e, h, moved)
      | inr (inr e) ↦ let behind = behind_both k.user j key e in ground (arith, rest, e, h, behind)
    ]

pub lookup_entry-insert_newest :
    (key j : Bytes) (s n : ℕ) (v : Value) (es : List (Key × Value))
    → UpTo n es
    → lookup_entry key s (insert_entry (record { user = j; seq = n }) v es)
      ≡ newest_or key s j n v es
lookup_entry-insert_newest key j s n v es h = elim (Ordering-cases (cmp_str j key)) [
  | inl e ↦ apart (λ f. cc)
  | inr (inl e) ↦
      subst
        (λ i.
          lookup_entry key s (insert_entry (record { user = i; seq = n }) v es)
          ≡ newest_or key s i n v es)
        (sym (eq_of_cmp_str j key e)) (insert_own key s n v es h)
  | inr (inr e) ↦ apart (λ f. cc)
]
  where
    apart :
        cmp_str j key ≢ Ordering.eq
        → lookup_entry key s (insert_entry (record { user = j; seq = n }) v es)
          ≡ newest_or key s j n v es
    apart differ =
        let other = insert_other key j s n v es differ in
        let not_same : same j key ≡ false = ground (arith, differ) in rw (newest_or, not_same) other

pub has_key-insert_version :
    (key j : Bytes) (n : ℕ) (v : Value) (es : List (Key × Value))
    → has_key (record { user = key; seq = n }) (insert_entry (record { user = j; seq = n }) v es)
      ≡ (same j key || has_key (record { user = key; seq = n }) es)
unfolding insert_entry has_key cmp
has_key-insert_version key j n v [] = ground arith
has_key-insert_version key j n v ((k, w) ∷ es) =
    let rest = has_key-insert_version key j n v es in
    let alike : cmp_str j key ≡ Ordering.eq → cmp_str k.user key ≡ cmp_str k.user j =
      λ e. rw (eq_of_cmp_str j key e) refl in
    elim (Ordering-cases (cmp_str k.user j)) [
      | inl e ↦ ground (arith, rest, e, alike)
      | inr (inl e) ↦
          let moved : cmp_str k.user key ≡ cmp_str j key = rw (eq_of_cmp_str k.user j e) refl in
          ground (arith, rest, e, moved)
      | inr (inr e) ↦
          let behind = behind_both k.user j key e in ground (arith, rest, e, behind, alike)
    ]

pub has_key-above :
    (key : Bytes) (n : ℕ) (es : List (Key × Value))
    → All (λ (e : Key × Value). e.0.seq < n) es
    → has_key (record { user = key; seq = n }) es ≡ false
unfolding has_key cmp
has_key-above key n [] h = refl
has_key-above key n ((k, v) ∷ es) (h, hs) =
    let rest = has_key-above key n es hs in ground (arith, h, rest)
