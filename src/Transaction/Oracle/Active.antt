-- ===== src/Transaction/Oracle/Active.antt =====
-- The active snapshots stay in ascending order, and the first of them is the oldest.
use lowdb.Prelude.{
  ℕ, ◌+◌, ◌-◌, ◌≤◌, ◌<◌, ◌≡◌, refl, ◌⊎◌, inl, inr, List, [], ◌∷◌, All, All-imp, arith, compare,
  Ordering-cases,
}
use lowdb.Transaction.Oracle.{count_up, count_down, first_or}

-- Strictly ascending.
abbrev pub IsSorted : List (ℕ × ℕ) → Type 0
IsSorted [] = Unit
IsSorted (x ∷ xs) = All (λ (y : ℕ × ℕ). x.0 < y.0) xs × IsSorted xs

abbrev pub UpTo : ℕ → List (ℕ × ℕ) → Type 0
UpTo v xs = All (λ (x : ℕ × ℕ). x.0 ≤ v) xs

-- `v` is one of the snapshots.
abbrev pub IsActive : ℕ → List (ℕ × ℕ) → Type 0
IsActive v [] = ⊥
IsActive v (x ∷ xs) = (x.0 ≡ v) ⊎ IsActive v xs

All-count_up {κ} :
    (P : ℕ × ℕ → Type κ) (v : ℕ) (xs : List (ℕ × ℕ))
    → ((n : ℕ) → P (v, n))
    → ((t n m : ℕ) → P (t, n) → P (t, m))
    → All P xs
    → All P (count_up v xs)
unfolding count_up
All-count_up P v [] new change h = (new 1, tt)
All-count_up P v ((t, n) ∷ xs) new change (h, hs) = elim (Ordering-cases (compare v t)) [
  | inl e ↦ rw (count_up, e) (new 1, (h, hs))
  | inr (inl e) ↦ rw (count_up, e) (change t n (n + 1) h, hs)
  | inr (inr e) ↦ rw (count_up, e) (h, All-count_up P v xs new change hs)
]

pub count_up-UpTo : (v : ℕ) (xs : List (ℕ × ℕ)) → UpTo v xs → UpTo v (count_up v xs)
count_up-UpTo v xs h = All-count_up _ v xs (λ n. omega arith) (λ t n m b. b) h

pub count_up-IsSorted : (v : ℕ) (xs : List (ℕ × ℕ)) → IsSorted xs → IsSorted (count_up v xs)
unfolding count_up
count_up-IsSorted v [] h = (tt, tt)
count_up-IsSorted v ((t, n) ∷ xs) (h, hs) = elim (Ordering-cases (compare v t)) [
  | inl e ↦
      let less : v < t = ground arith in
      rw (count_up, e) ((less, All-imp _ _ (λ y b. omega arith) xs h), (h, hs))
  | inr (inl e) ↦ rw (count_up, e) (h, hs)
  | inr (inr e) ↦
      let less : t < v = ground arith in
      rw (count_up, e) (All-count_up _ v xs (λ n. less) (λ s n m b. b) h, count_up-IsSorted v xs hs)
]

All-count_down {κ} :
    (P : ℕ × ℕ → Type κ) (v : ℕ) (xs : List (ℕ × ℕ))
    → ((t n m : ℕ) → P (t, n) → P (t, m))
    → All P xs
    → All P (count_down v xs)
unfolding count_down
All-count_down P v [] change h = tt
All-count_down P v ((t, n) ∷ xs) change (h, hs) =
    let rest = All-count_down P v xs change hs in let changed = change t n (n - 1) h in ground arith

pub count_down-UpTo : (u v : ℕ) (xs : List (ℕ × ℕ)) → UpTo u xs → UpTo u (count_down v xs)
count_down-UpTo u v xs h = All-count_down _ v xs (λ t n m b. b) h

pub count_down-IsSorted : (v : ℕ) (xs : List (ℕ × ℕ)) → IsSorted xs → IsSorted (count_down v xs)
unfolding count_down
count_down-IsSorted v [] h = tt
count_down-IsSorted v ((t, n) ∷ xs) (h, hs) =
    let rest = count_down-IsSorted v xs hs in
    let above = All-count_down (λ (y : ℕ × ℕ). t < y.0) v xs (λ s n m b. b) h in ground arith

-- The watermark is at most every active snapshot.
pub first_or-IsActive :
    (d r : ℕ) (xs : List (ℕ × ℕ)) → IsSorted xs → IsActive r xs → first_or d xs ≤ r
first_or-IsActive d r [] h a = elim a [ ]
first_or-IsActive d r ((t, n) ∷ xs) (h, hs) (inl e) = omega arith
first_or-IsActive d r ((t, n) ∷ xs) (h, hs) (inr a) = later xs h a
  where
    later : (ys : List (ℕ × ℕ)) → All (λ (y : ℕ × ℕ). t < y.0) ys → IsActive r ys → t ≤ r
    later [] b a = elim a [ ]
    later (y ∷ ys) (b, bs) (inl e) = omega arith
    later (y ∷ ys) (b, bs) (inr a) = later ys bs a

-- A new snapshot at or above all others leaves the watermark, and the end of one does not lower it.
pub first_or-count_up :
    (v : ℕ) (xs : List (ℕ × ℕ)) → UpTo v xs → first_or v (count_up v xs) ≡ first_or v xs
unfolding count_up
first_or-count_up v [] h = refl
first_or-count_up v ((t, n) ∷ xs) (h, hs) = ground arith

pub first_or-count_down :
    (d v : ℕ) (xs : List (ℕ × ℕ))
    → IsSorted xs
    → UpTo d xs
    → first_or d xs ≤ first_or d (count_down v xs)
unfolding count_down
first_or-count_down d v [] s h = omega arith
first_or-count_down d v ((t, n) ∷ []) s (h, hs) = ground arith
first_or-count_down d v ((t, n) ∷ (u, m) ∷ xs) (s, ss) (h, hs) = ground arith
