-- ===== src/Common/Key/Order.antt =====
-- The comparison of keys is a lawful total order.
use lowdb.Prelude.{Ordering, Ordering-cases, [], ◌∷◌, ◌≡◌, ◌<◌, ◌⊎◌, inl, inr, refl, arith}
use lowdb.Prelude.Bytes.{Bytes}
use lowdb.Common.Key.{Key, cmp_str, cmp}

abbrev pub flip : Ordering → Ordering
flip Ordering.lt = Ordering.gt
flip Ordering.eq = Ordering.eq
flip Ordering.gt = Ordering.lt

pub cmp_str_refl : (a : Bytes) → cmp_str a a ≡ Ordering.eq
unfolding cmp_str
cmp_str_refl [] = refl
cmp_str_refl (x ∷ xs) = ground (arith, cmp_str_refl xs)

pub eq_of_cmp_str : (a b : Bytes) → cmp_str a b ≡ Ordering.eq → a ≡ b
unfolding cmp_str
eq_of_cmp_str [] [] h = refl
eq_of_cmp_str [] (y ∷ ys) h = ground arith
eq_of_cmp_str (x ∷ xs) [] h = ground arith
eq_of_cmp_str (x ∷ xs) (y ∷ ys) h = ground (arith, eq_of_cmp_str xs ys)

pub cmp_str-flip : (a b : Bytes) → cmp_str b a ≡ flip (cmp_str a b)
unfolding cmp_str
cmp_str-flip [] [] = refl
cmp_str-flip [] (y ∷ ys) = refl
cmp_str-flip (x ∷ xs) [] = refl
cmp_str-flip (x ∷ xs) (y ∷ ys) = ground (arith, cmp_str-flip xs ys)

pub cmp_str_trans :
    (a b c : Bytes)
    → cmp_str a b ≡ Ordering.lt
    → cmp_str b c ≡ Ordering.lt
    → cmp_str a c ≡ Ordering.lt
unfolding cmp_str
cmp_str_trans [] [] c p q = ground arith
cmp_str_trans [] (y ∷ ys) [] p q = ground arith
cmp_str_trans [] (y ∷ ys) (z ∷ zs) p q = refl
cmp_str_trans (x ∷ xs) [] c p q = ground arith
cmp_str_trans (x ∷ xs) (y ∷ ys) [] p q = ground arith
cmp_str_trans (x ∷ xs) (y ∷ ys) (z ∷ zs) p q = ground (arith, cmp_str_trans xs ys zs)

pub cmp_refl : (a : Key) → cmp a a ≡ Ordering.eq
unfolding cmp
cmp_refl a = ground (arith, cmp_str_refl a.user)

pub eq_of_cmp : (a b : Key) → cmp a b ≡ Ordering.eq → a ≡ b
unfolding cmp
eq_of_cmp a b h = ground (arith, eq_of_cmp_str a.user b.user)

pub cmp-flip : (a b : Key) → cmp b a ≡ flip (cmp a b)
unfolding cmp
cmp-flip a b = ground (arith, cmp_str-flip a.user b.user)

pub cmp_trans :
    (a b c : Key) → cmp a b ≡ Ordering.lt → cmp b c ≡ Ordering.lt → cmp a c ≡ Ordering.lt
unfolding cmp
cmp_trans a b c p q = ground (
  arith,
  cmp_str_trans a.user b.user c.user,
  eq_of_cmp_str a.user b.user,
  eq_of_cmp_str b.user c.user,
)

-- What is before what: the lower user's key, and of one user's key the newer version.
abbrev pub IsBefore : Key → Key → Type 0
IsBefore a b = (cmp_str a.user b.user ≡ Ordering.lt) ⊎ ((a.user ≡ b.user) × (b.seq < a.seq))

pub less-IsBefore : (a b : Key) → cmp a b ≡ Ordering.lt → IsBefore a b
unfolding cmp
less-IsBefore a b h = elim (Ordering-cases (cmp_str a.user b.user)) [
  | inl lt ↦ inl lt
  | inr (inl eq) ↦ inr (eq_of_cmp_str a.user b.user eq, ground (arith, eq, h))
  | inr (inr gt) ↦ absurd (ground (arith, gt, h))
]

IsBefore-less : (a b : Key) → IsBefore a b → cmp a b ≡ Ordering.lt
unfolding cmp
IsBefore-less a b (inl lt) = ground (arith, lt)
IsBefore-less a b (inr (same_user, newer)) =
    let here : cmp_str a.user b.user ≡ Ordering.eq = rw same_user (cmp_str_refl b.user) in
    ground (arith, here, newer)

-- Keys are in the order of the user's keys, and of one user's key the newer version is first: that is just
-- when `cmp` gives `less`. The order is linear: a key is neither before nor behind itself, keys that
-- compare equal are equal, exchanging the keys turns the result round, and `less` is transitive.
pub cmp_linear :
    (a b c : Key)
    → (cmp a b ≡ Ordering.lt
        → (cmp_str a.user b.user ≡ Ordering.lt) ⊎ ((a.user ≡ b.user) × (b.seq < a.seq)))
      × ((cmp_str a.user b.user ≡ Ordering.lt) ⊎ ((a.user ≡ b.user) × (b.seq < a.seq))
          → cmp a b ≡ Ordering.lt)
      × (cmp a a ≡ Ordering.eq)
      × (cmp a b ≡ Ordering.eq → a ≡ b)
      × (cmp b a ≡ flip (cmp a b))
      × (cmp a b ≡ Ordering.lt → cmp b c ≡ Ordering.lt → cmp a c ≡ Ordering.lt)
cmp_linear a b c =
    (less-IsBefore a b, IsBefore-less a b, cmp_refl a, eq_of_cmp a b, cmp-flip a b, cmp_trans a b c)
