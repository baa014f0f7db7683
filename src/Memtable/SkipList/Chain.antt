-- ===== src/Memtable/SkipList/Chain.antt =====
-- One level of a skip list, apart from its memory: the nodes of the whole list in order, of which
-- those that are tall enough are linked.
use lowdb.Prelude.{
  ℕ, ◌≤◌, ◌+◌, length, length-append, All-append, ◌≡◌, refl, ap, ◌∙◌, Bool, true, false, none, some,
  List, [], ◌∷◌, ◌++◌, All, append_assoc, append-nil, arith, ◌==◌, if◌then◌else◌, Bool-cases, inl,
  inr,
}
use lowdb.Memtable.SkipList.{Ptr}

unfoldable pub ptr_eq : Ptr → Ptr → Bool
ptr_eq none none = true
ptr_eq none (some b) = false
ptr_eq (some a) none = false
ptr_eq (some a) (some b) = a == b

pub ptr_eq_refl : (p : Ptr) → ptr_eq p p ≡ true
unfolding ptr_eq
ptr_eq_refl none = refl
ptr_eq_refl (some a) = ground arith

pub ptr_eq_comm : (p q : Ptr) → ptr_eq p q ≡ ptr_eq q p
unfolding ptr_eq
ptr_eq_comm none none = refl
ptr_eq_comm none (some b) = refl
ptr_eq_comm (some a) none = refl
ptr_eq_comm (some a) (some b) = ground arith

-- The last tall node of `xs`, or `p` where there is none; and the first.
unfoldable pub last_tall : (ℕ → Bool) → Ptr → List ℕ → Ptr
last_tall tall p [] = p
last_tall tall p (a ∷ xs) = last_tall tall (if tall a then some a else p) xs

unfoldable pub first_tall : (ℕ → Bool) → List ℕ → Ptr
first_tall tall [] = none
first_tall tall (a ∷ xs) = if tall a then some a else first_tall tall xs

-- From `p` on, the next pointers `f` lead through the tall nodes of the list to null.
pub data Linked (tall : ℕ → Bool) (f : Ptr → Ptr) : Ptr → List ℕ → Type 0 where
  end : {p : Ptr} → f p ≡ none → Linked tall f p []
  step :
      {p : Ptr} {a : ℕ} {xs : List ℕ}
      → tall a ≡ true
      → f p ≡ some a
      → Linked tall f (some a) xs
      → Linked tall f p (a ∷ xs)
  skip :
      {p : Ptr} {a : ℕ} {xs : List ℕ}
      → tall a ≡ false
      → Linked tall f p xs
      → Linked tall f p (a ∷ xs)

-- `p` and the nodes of the list are all different.
abbrev pub Apart : Ptr → List ℕ → Type 0
Apart p xs = All (λ a. ptr_eq p (some a) ≡ false) xs

abbrev pub Distinct : Ptr → List ℕ → Type 0
Distinct p [] = Unit
Distinct p (a ∷ xs) = Apart p (a ∷ xs) × Distinct (some a) xs

pub Distinct-skip : (p : Ptr) (a : ℕ) (xs : List ℕ) → Distinct p (a ∷ xs) → Distinct p xs
Distinct-skip p a [] h = tt
Distinct-skip p a (b ∷ xs) (hp, ha) = (hp.1, ha.1)

pub Apart-of_Distinct : (p : Ptr) (xs : List ℕ) → Distinct p xs → Apart p xs
Apart-of_Distinct p [] d = tt
Apart-of_Distinct p (a ∷ xs) d = d.0

Apart-prefix : (p : Ptr) (xs ys : List ℕ) → Apart p (xs ++ ys) → Apart p xs
Apart-prefix p [] ys h = tt
Apart-prefix p (a ∷ xs) ys h = (h.0, Apart-prefix p xs ys h.1)

module _ (tall : ℕ → Bool) where
  pub Apart-last :
      (q p : Ptr) (xs : List ℕ)
      → ptr_eq q p ≡ false
      → Apart q xs
      → ptr_eq q (last_tall tall p xs) ≡ false
  unfolding last_tall
  Apart-last q p [] h hs = h
  Apart-last q p (a ∷ xs) h hs = elim (Bool-cases (tall a)) [
    | inl e ↦ rw e (Apart-last q (some a) xs hs.0 hs.1)
    | inr e ↦ rw e (Apart-last q p xs h hs.1)
  ]

  pub Distinct-last :
      (p : Ptr) (xs ys : List ℕ) → Distinct p (xs ++ ys) → Distinct (last_tall tall p xs) ys
  unfolding last_tall
  Distinct-last p [] ys h = h
  Distinct-last p (a ∷ xs) ys h = elim (Bool-cases (tall a)) [
    | inl e ↦ rw e (Distinct-last (some a) xs ys h.1)
    | inr e ↦ rw e (Distinct-last p xs ys (Distinct-skip p a (xs ++ ys) h))
  ]

  pub last_tall-append :
      (p : Ptr) (xs ys : List ℕ)
      → last_tall tall p (xs ++ ys) ≡ last_tall tall (last_tall tall p xs) ys
  unfolding last_tall
  last_tall-append p [] ys = refl
  last_tall-append p (a ∷ xs) ys = last_tall-append (if tall a then some a else p) xs ys

  module _ (f : Ptr → Ptr) where
    pub Linked-first : {p : Ptr} {xs : List ℕ} → Linked tall f p xs → f p ≡ first_tall tall xs
    unfolding first_tall
    Linked-first (end e) = e
    Linked-first (step t e l) = rw t e
    Linked-first (skip t l) = rw t (Linked-first l)

    -- Behind a tall node of the list the links go on from that node.
    pub Linked-after :
        {p : Ptr} (xs : List ℕ) (a : ℕ) (ys : List ℕ)
        → tall a ≡ true
        → Linked tall f p (xs ++ a ∷ ys)
        → Linked tall f (some a) ys
    Linked-after [] a ys h (step t e l) = l
    Linked-after [] a ys h (skip t l) = cc
    Linked-after (x ∷ xs) a ys h (step t e l) = Linked-after xs a ys h l
    Linked-after (x ∷ xs) a ys h (skip t l) = Linked-after xs a ys h l

    pub Linked-from_last :
        {p : Ptr} (xs ys : List ℕ)
        → Linked tall f p (xs ++ ys)
        → Linked tall f (last_tall tall p xs) ys
    unfolding last_tall
    Linked-from_last [] ys l = l
    Linked-from_last (x ∷ xs) ys (step t e l) = rw t (Linked-from_last xs ys l)
    Linked-from_last (x ∷ xs) ys (skip t l) = rw t (Linked-from_last xs ys l)

  -- Only the pointers along the chain count, and only the heights of its nodes.
  pub Linked-ext :
      (tall' : ℕ → Bool) (f f' : Ptr → Ptr) {p : Ptr} {xs : List ℕ}
      → All (λ a. tall' a ≡ tall a) xs
      → ((q : Ptr) → f' q ≡ f q)
      → Linked tall f p xs
      → Linked tall' f' p xs
  Linked-ext tall' f f' hs e (end h) = end (e _ ∙ h)
  Linked-ext tall' f f' hs e (step t h l) =
      step (hs.0 ∙ t) (e _ ∙ h) (Linked-ext tall' f f' hs.1 e l)
  Linked-ext tall' f f' hs e (skip t l) = skip (hs.0 ∙ t) (Linked-ext tall' f f' hs.1 e l)

-- The links depend on the pointers alone.
pub Linked-load :
    (tall : ℕ → Bool) (f f' : Ptr → Ptr) {p : Ptr} {xs : List ℕ}
    → ((q : Ptr) → f' q ≡ f q)
    → Linked tall f p xs
    → Linked tall f' p xs
Linked-load tall f f' e (end h) = end (e _ ∙ h)
Linked-load tall f f' e (step t h l) = step t (e _ ∙ h) (Linked-load tall f f' e l)
Linked-load tall f f' e (skip t l) = skip t (Linked-load tall f f' e l)

-- The search goes down one level: from the last node before the target that is tall at the upper
-- level, the lower level leads to its own last node before the target.
module _ (high low : ℕ → Bool) (f : Ptr → Ptr) (R : ℕ → Type 0)
    (imp : (a : ℕ) → high a ≡ true → low a ≡ true) where
  pub record Resumes (q p : Ptr) (bound : ℕ) (after : List ℕ) : Type 0 where
    pub between : List ℕ
    pub linked : Linked low f q (between ++ after)
    pub reaches : last_tall low q between ≡ p
    pub all : All R between
    pub short : length between ≤ bound

  resume_from :
      (r : Ptr) (done before after : List ℕ) (bound : ℕ)
      → length done + length before ≤ bound
      → All R done
      → All R before
      → Linked low f r (done ++ (before ++ after))
      → Resumes (last_tall high r before) (last_tall low r (done ++ before)) bound after
  unfolding last_tall
  resume_from r done [] after bound h hd hb l = record {
    between = done;
    linked = l;
    reaches = rw append-nil;
    all = hd;
    short = omega arith;
  }
  resume_from r done (a ∷ before) after bound h hd hb l = elim (Bool-cases (high a)) [
    | inl t ↦
        let rest =
          resume_from (some a) [] before after bound (omega arith) tt hb.1
            (Linked-after low f done a _ (imp a t) l) in
        record {
          between = rest.between;
          linked = rw t rest.linked;
          reaches = rw (t, last_tall-append low r done (a ∷ before), imp a t) rest.reaches;
          all = rest.all;
          short = rest.short;
        }
    | inr t ↦
        let longer : length (done ++ a ∷ []) + length before ≤ bound =
          omega (arith, length-append done (a ∷ [])) in
        let rest =
          resume_from r (done ++ a ∷ []) before after bound longer
            (All-append R done (a ∷ []) hd (hb.0, tt)) hb.1 (rw append_assoc l) in
        record {
          between = rest.between;
          linked = rw t rest.linked;
          reaches = rw t (rest.reaches ∙ (rw append_assoc));
          all = rest.all;
          short = rest.short;
        }
  ]

  pub resume :
      (before after : List ℕ)
      → All R before
      → Linked low f none (before ++ after)
      → Resumes (last_tall high none before) (last_tall low none before) (length before) after
  resume before after h l = resume_from none [] before after (length before) (omega arith) tt h l

-- A new node `n` is linked in behind the last tall node before it.
module _ (tall : ℕ → Bool) (f f' : Ptr → Ptr) (n : ℕ) (new_tall : tall n ≡ true) where
  moved :
      (q : Ptr) (ys : List ℕ)
      → All (λ a. f' (some a) ≡ f (some a)) ys
      → {p : Ptr} → f' q ≡ f p
      → Linked tall f p ys
      → Linked tall f' q ys
  moved q [] same e (end h) = end (e ∙ h)
  moved q (a ∷ ys) same e (step t h l) = step t (e ∙ h) (moved (some a) ys same.1 same.0 l)
  moved q (a ∷ ys) same e (skip t l) = skip t (moved q ys same.1 e l)

  kept :
      (p : Ptr) (ys : List ℕ)
      → ((q : Ptr) → ptr_eq q p ≡ false → ptr_eq q (some n) ≡ false → f' q ≡ f q)
      → Apart (some n) ys
      → Apart p ys
      → All (λ a. f' (some a) ≡ f (some a)) ys
  kept p [] keep fresh d = tt
  kept p (a ∷ ys) keep fresh d = (
    keep (some a) (ptr_eq_comm (some a) p ∙ d.0) (ptr_eq_comm (some a) (some n) ∙ fresh.0),
    kept p ys keep fresh.1 d.1,
  )

  pub Linked-insert :
      (last : Ptr) {p : Ptr} (xs ys : List ℕ)
      → last ≡ last_tall tall p xs
      → f' last ≡ some n
      → f' (some n) ≡ f last
      → ((q : Ptr) → ptr_eq q last ≡ false → ptr_eq q (some n) ≡ false → f' q ≡ f q)
      → Apart (some n) (xs ++ ys)
      → ptr_eq p (some n) ≡ false
      → Distinct p (xs ++ ys)
      → Linked tall f p (xs ++ ys)
      → Linked tall f' p (xs ++ n ∷ ys)
  unfolding last_tall
  Linked-insert last {p} [] ys e to next keep fresh pn d l =
      let to' : f' p ≡ some n = rw (← e) to in
      let next' : f' (some n) ≡ f p = next ∙ ap f e in
      step new_tall to' (
        moved (some n) ys (kept p ys (λ q h. keep q (rw e h)) fresh (Apart-of_Distinct p ys d))
          next' l)
  Linked-insert last {p} (x ∷ xs) ys e to next keep fresh pn d (step t h l) =
      let e' : last ≡ last_tall tall (some x) xs = rw t at e in
      let other : ptr_eq p last ≡ false =
        rw e' (Apart-last tall p (some x) xs d.0.0 (Apart-prefix p xs ys d.0.1)) in
      step t (keep p other pn ∙ h) (
        Linked-insert last xs ys e' to next keep fresh.1 (ptr_eq_comm (some x) (some n) ∙ fresh.0)
          d.1 l)
  Linked-insert last {p} (x ∷ xs) ys e to next keep fresh pn d (skip t l) =
      let e' : last ≡ last_tall tall p xs = rw t at e in
      skip t
        (Linked-insert last xs ys e' to next keep fresh.1 pn (Distinct-skip p x (xs ++ ys) d) l)

-- Where the new node is not tall at a level, the level stays as it is.
pub Linked-insert_low :
    (tall : ℕ → Bool) (f : Ptr → Ptr) (n : ℕ)
    → tall n ≡ false
    → {p : Ptr} (xs ys : List ℕ) → Linked tall f p (xs ++ ys)
    → Linked tall f p (xs ++ n ∷ ys)
Linked-insert_low tall f n h [] ys l = skip h l
Linked-insert_low tall f n h (x ∷ xs) ys (step t e l) =
    step t e (Linked-insert_low tall f n h xs ys l)
Linked-insert_low tall f n h (x ∷ xs) ys (skip t l) = skip t (Linked-insert_low tall f n h xs ys l)
