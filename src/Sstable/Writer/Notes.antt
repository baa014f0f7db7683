-- ===== src/Sstable/Writer/Notes.antt =====
-- What the writer notes of the entries that it was given: their first and last key, and their hashes.
use lowdb.Prelude.{
  ◌≡◌, ◌≢◌, refl, inl, inr, Bool, true, false, Ordering, Ordering-cases, Option, none, some, List,
  [], ◌∷◌, ◌++◌, All, All-append, All-imp, OneOf, arith, ℕ, subst, if◌then◌else◌,
}
use lowdb.Common.Key.{Key, cmp, cmp_str}
use lowdb.Common.Key.Order.{cmp_trans, eq_of_cmp, eq_of_cmp_str, cmp_refl}
use lowdb.Sstable.Bloom.{hash64}
use lowdb.Sstable.Table.Layout.{Entry}
use lowdb.Sstable.Writer.{is_new_key, is_behind, first_with}

-- One key is not behind another.
abbrev pub UpTo : Key → Key → Type 0
UpTo a b = cmp a b ≢ Ordering.gt

abbrev pub UpToLast : Option Key → Key → Type 0
UpToLast none k = ⊥
UpToLast (some last) k = UpTo k last

abbrev pub FromFirst : Option Key → Key → Type 0
FromFirst none k = ⊥
FromFirst (some first) k = UpTo first k

pub UpTo-trans : (a b c : Key) → UpTo a b → UpTo b c → UpTo a c
UpTo-trans a b c h g = elim (Ordering-cases (cmp a b)) [
  | inl ab ↦ elim (Ordering-cases (cmp b c)) [
    | inl bc ↦ λ e. absurd (ground (arith, cmp_trans a b c ab bc))
    | inr (inl bc) ↦ rw (← eq_of_cmp b c bc) h
    | inr (inr bc) ↦ absurd (g bc)
  ]
  | inr (inl ab) ↦ rw (eq_of_cmp a b ab) g
  | inr (inr ab) ↦ absurd (h ab)
]

pub users_UpTo : (a b : Key) → UpTo a b → cmp_str a.user b.user ≢ Ordering.gt
unfolding cmp
users_UpTo a b h e = h (rw (cmp, e) refl)

OneOf-append : {A : Type 0} (x : A) (xs ys : List A) → OneOf x xs → OneOf x (xs ++ ys)
OneOf-append x [] ys h = absurd h
OneOf-append x (y ∷ xs) ys (inl e) = inl e
OneOf-append x (y ∷ xs) ys (inr h) = inr (OneOf-append x xs ys h)

OneOf-append_end : {A : Type 0} (x : A) (xs : List A) → OneOf x (xs ++ x ∷ [])
OneOf-append_end x [] = inl refl
OneOf-append_end x (y ∷ xs) = inr (OneOf-append_end x xs)

-- The hashes behind `add` of a key, which is of a new user's key or not.
abbrev hashes_if : Bool → Key → List ℕ → List ℕ
hashes_if new k hashes = if new then hashes ++ hash64 k.user ∷ [] else hashes

abbrev pub hashes_with : Option Key → Key → List ℕ → List ℕ
hashes_with last k hashes = hashes_if (is_new_key last k) k hashes

abbrev HashedLast : Option Key → List ℕ → Type 0
HashedLast none hashes = Unit
HashedLast (some last) hashes = OneOf (hash64 last.user) hashes

abbrev FirstBeforeLast : Option Key → Option Key → Type 0
FirstBeforeLast none none = Unit
FirstBeforeLast none (some last) = ⊥
FirstBeforeLast (some first) none = ⊥
FirstBeforeLast (some first) (some last) = UpTo first last

pub record IsNoted (es : List Entry) (first last : Option Key) (hashes : List ℕ) : Type 0 where
  pub upto : All (λ (e : Entry). UpToLast last e.0) es
  pub from : All (λ (e : Entry). FromFirst first e.0) es
  pub bounds : FirstBeforeLast first last
  pub hashed : All (λ (e : Entry). OneOf (hash64 e.0.user) hashes) es
  pub hashed_last : HashedLast last hashes

upto_next :
    (last : Option Key) (k : Key) (es : List Entry)
    → is_behind last k ≡ false
    → All (λ (e : Entry). UpToLast last e.0) es
    → All (λ (e : Entry). UpTo e.0 k) es
upto_next none k es behind h = All-imp _ _ (λ (e : Entry) (x : ⊥). absurd x) es h
upto_next (some last) k es behind h =
    let before : UpTo last k = λ e. ground (arith, e) in
    All-imp _ _ (λ (e : Entry) x. UpTo-trans e.0 last k x before) es h

hashed_if :
    (new : Bool) (k : Key) (hashes : List ℕ)
    → (new ≡ false → OneOf (hash64 k.user) hashes)
    → OneOf (hash64 k.user) (hashes_if new k hashes)
hashed_if true k hashes h = OneOf-append_end (hash64 k.user) hashes
hashed_if false k hashes h = h refl

hashed_here :
    (last : Option Key) (k : Key) (hashes : List ℕ)
    → HashedLast last hashes
    → OneOf (hash64 k.user) (hashes_with last k hashes)
hashed_here none k hashes h = hashed_if true k hashes (λ e. absurd (cc))
hashed_here (some last) k hashes h = hashed_if (is_new_key (some last) k) k hashes (λ old.
    let same_user : last.user ≡ k.user = eq_of_cmp_str last.user k.user (ground (arith, old)) in
    subst (λ u. OneOf (hash64 u) hashes) same_user h)

hashed_before :
    (new : Bool) (k : Key) (hashes : List ℕ) (h : ℕ)
    → OneOf h hashes
    → OneOf h (hashes_if new k hashes)
hashed_before true k hashes h m = OneOf-append h hashes (hash64 k.user ∷ []) m
hashed_before false k hashes h m = m

first_next :
    (first last : Option Key) (k : Key)
    → is_behind last k ≡ false
    → FirstBeforeLast first last
    → FirstBeforeLast (first_with first k) (some k)
first_next none none k behind b = λ e. ground (arith, e, cmp_refl k)
first_next none (some last) k behind b = absurd b
first_next (some first) none k behind b = absurd b
first_next (some first) (some last) k behind b = UpTo-trans first last k b (λ e. ground (arith, e))

from_next :
    (first : Option Key) (k : Key) (es : List Entry)
    → All (λ (e : Entry). FromFirst first e.0) es
    → All (λ (e : Entry). FromFirst (first_with first k) e.0) es
from_next none k es h = All-imp _ _ (λ (e : Entry) (x : ⊥). absurd x) es h
from_next (some first) k es h = h

from_here :
    (first : Option Key) (k : Key)
    → FirstBeforeLast (first_with first k) (some k)
    → FromFirst (first_with first k) k
from_here none k h = h
from_here (some first) k h = h

-- The notes are right of the entries with one more, which is not behind the last.
pub IsNoted-next :
    (es : List Entry) (first last : Option Key) (hashes : List ℕ) (e : Entry)
    → is_behind last e.0 ≡ false
    → IsNoted es first last hashes
    → IsNoted (es ++ e ∷ []) (first_with first e.0) (some e.0) (hashes_with last e.0 hashes)
IsNoted-next es first last hashes e behind n =
    let self : UpTo e.0 e.0 = λ x. ground (arith, x, cmp_refl e.0) in
    let bounds = first_next first last e.0 behind n.bounds in
    let here = hashed_here last e.0 hashes n.hashed_last in
    record {
      upto =
          All-append (λ (x : Entry). UpTo x.0 e.0) es (e ∷ []) (upto_next last e.0 es behind n.upto)
            (self, tt);
      from =
          All-append (λ (x : Entry). FromFirst (first_with first e.0) x.0) es (e ∷ [])
            (from_next first e.0 es n.from) (from_here first e.0 bounds, tt);
      bounds = bounds;
      hashed =
          All-append (λ (x : Entry). OneOf (hash64 x.0.user) (hashes_with last e.0 hashes)) es
            (e ∷ [])
            (All-imp _ _
              (λ (x : Entry) m. hashed_before (is_new_key last e.0) e.0 hashes (hash64 x.0.user) m)
              es n.hashed)
            (here, tt);
      hashed_last = here;
    }
