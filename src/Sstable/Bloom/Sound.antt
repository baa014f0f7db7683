-- ===== src/Sstable/Bloom/Sound.antt =====
-- The filter never denies a key that was put into it.
use native.Mathlib.Nat.{mod-lt}
use Prim.Native.Nat.{bit_or}
use lowdb.Prelude.{
  ℕ, zero, suc, ◌+◌, ◌-◌, ◌*◌, ◌/◌, ◌%◌, ◌^◌, ◌≤◌, ◌<◌, ◌≡◌, ◌⊎◌, inl, inr, refl, ap, ◌∙◌, true,
  false, Bool-cases, List, [], ◌∷◌, length, get_or, set, replicate, take, ltb, le→ltb, ◌==◌, ==_iff,
  arith, length-set, length-replicate, get_or-set_self, get_or-set_ne, get_or-take, length-take,
  get_or-replicate, OneOf,
}
use lowdb.Prelude.Bytes.{Bytes}
use lowdb.Env.{Env}
use lowdb.Sstable.Bloom.{
  hash64, set_bit, is_clear, set_probes, add_hashes, clamp_probes, bytes_for, build, all_probes,
  may_contain, rotate_15, wrapping_add,
}
use lowdb.Sstable.Bloom.Bits.{set_own, set_byte, set_other}

-- Every byte of a filter is below 256, also beyond its end, where none is set.
abbrev AreBytes : Bytes → Type 0
AreBytes out = (i : ℕ) → get_or out i 0 < 256

-- Of the first `n` bits, those that are set in `out` are set in `out'`.
abbrev Keeps : ℕ → Bytes → Bytes → Type 0
Keeps n out out' = (p : ℕ) → p < n → is_clear p out ≡ false → is_clear p out' ≡ false

get_or-set_far : (xs : Bytes) (i : ℕ) (v : ℕ) → length xs ≤ i → set xs i v ≡ xs
get_or-set_far [] i v h = refl
get_or-set_far (x ∷ xs) zero v h = absurd (omega arith)
get_or-set_far (x ∷ xs) (suc i) v h = ap (◌∷◌ x) (get_or-set_far xs i v (omega arith))

set_cases :
    (xs : Bytes) (i j v : ℕ)
    → (get_or (set xs i v) j 0 ≡ get_or xs j 0) ⊎ ((i ≡ j) × (get_or (set xs i v) j 0 ≡ v))
set_cases xs i j v = elim (Bool-cases (i == j)) [
  | inl e ↦
      let same : i ≡ j = (==_iff i j).0 e in
      elim (Bool-cases (ltb i (length xs))) [
        | inl h ↦ inr (same, rw (← same) (get_or-set_self xs i v 0 (ground arith)))
        | inr h ↦ inl (ap (λ ys. get_or ys j 0) (get_or-set_far xs i v (ground arith)))
      ]
  | inr e ↦ inl (get_or-set_ne xs i j v 0 (λ same. ground arith))
]

set_bit-AreBytes : (p : ℕ) (out : Bytes) → AreBytes out → AreBytes (set_bit p out)
unfolding set_bit
set_bit-AreBytes p out h i =
    elim (set_cases out (p / 8) i (bit_or (get_or out (p / 8) 0) (2 ^ (p % 8)))) [
      | inl e ↦ rw e (h i)
      | inr (_, e) ↦ rw e (set_byte (p % 8) (get_or out (p / 8) 0) (omega arith) (h (p / 8)))
    ]

set_bit-Keeps : (n q : ℕ) (out : Bytes) → AreBytes out → Keeps n out (set_bit q out)
unfolding set_bit is_clear
set_bit-Keeps n q out h p _ e =
    elim (set_cases out (q / 8) (p / 8) (bit_or (get_or out (q / 8) 0) (2 ^ (q % 8)))) [
      | inl kept ↦ rw (is_clear, kept) e
      | inr (same, new) ↦
          rw (is_clear, new, same)
            (set_other (p % 8) (q % 8) (get_or out (p / 8) 0) (omega arith) (omega arith)
              (h (p / 8)) e)
    ]

set_bit_own :
    (p : ℕ) (out : Bytes) → AreBytes out → p / 8 < length out → is_clear p (set_bit p out) ≡ false
unfolding set_bit is_clear
set_bit_own p out h lt =
    rw (is_clear, get_or-set_self out (p / 8) (bit_or (get_or out (p / 8) 0) (2 ^ (p % 8))) 0 lt)
      (set_own (p % 8) (get_or out (p / 8) 0) (omega arith) (h (p / 8)))

length-set_bit : (p : ℕ) (out : Bytes) → length (set_bit p out) ≡ length out
unfolding set_bit
length-set_bit p out = length-set out (p / 8) _

all_probes-Keeps :
    (k n delta b : ℕ) (out out' : Bytes)
    → 0 < n
    → Keeps n out out'
    → all_probes k n delta b out ≡ true
    → all_probes k n delta b out' ≡ true
unfolding all_probes
all_probes-Keeps zero n delta b out out' pos keep h = refl
all_probes-Keeps (suc k) n delta b out out' pos keep h = elim (Bool-cases (is_clear (b % n) out)) [
  | inl clear ↦ ground arith
  | inr here ↦
      let there = keep (b % n) (mod-lt b pos) here in
      let rest = all_probes-Keeps k n delta (wrapping_add b delta) out out' pos keep in ground arith
]

-- What a run of the loops leaves: bytes as many as before, with no bit lost.
record Grown (n : ℕ) (out out' : Bytes) : Type 0 where
  bytes : AreBytes out'
  size : length out' ≡ length out
  keeps : Keeps n out out'

set_bit-Grown : (n p : ℕ) (out : Bytes) → AreBytes out → Grown n out (set_bit p out)
set_bit-Grown n p out h = record {
  bytes = set_bit-AreBytes p out h;
  size = length-set_bit p out;
  keeps = set_bit-Keeps n p out h;
}

Grown-trans : (n : ℕ) (a b c : Bytes) → Grown n a b → Grown n b c → Grown n a c
Grown-trans n a b c g h = record {
  bytes = h.bytes;
  size = h.size ∙ g.size;
  keeps = λ p lt e. h.keeps p lt (g.keeps p lt e);
}

module _ (n : ℕ) (pos : 0 < n) where
  set_probes-Grown :
      (k delta b : ℕ) (out : Bytes)
      → AreBytes out
      → n ≤ 8 * length out
      → Grown n out (set_probes k n delta b out)
        × (all_probes k n delta b (set_probes k n delta b out) ≡ true)
  unfolding set_probes all_probes
  set_probes-Grown zero delta b out h room =
      (record { bytes = h; size = refl; keeps = λ p lt e. e }, refl)
  set_probes-Grown (suc k) delta b out h room =
      let g = set_bit-Grown n (b % n) out h in
      let out' = set_bit (b % n) out in
      let (g', rest) =
        set_probes-Grown k delta (wrapping_add b delta) out' g.bytes (omega (arith, g.size)) in
      let below = mod-lt b pos in
      let own = set_bit_own (b % n) out h (omega (arith, below)) in
      let there = g'.keeps (b % n) below own in (Grown-trans n out out' _ g g', ground arith)

  add_hashes-Grown :
      (k : ℕ) (hs : List ℕ) (out : Bytes)
      → AreBytes out
      → n ≤ 8 * length out
      → Grown n out (add_hashes k n hs out)
  unfolding add_hashes
  add_hashes-Grown k [] out h room = record { bytes = h; size = refl; keeps = λ p lt e. e }
  add_hashes-Grown k (x ∷ hs) out h room =
      let (g, _) = set_probes-Grown k (rotate_15 x) x out h room in
      Grown-trans n out _ _ g (add_hashes-Grown k hs _ g.bytes (omega (arith, g.size)))

  add_hashes_own :
      (k h : ℕ) (hs : List ℕ) (out : Bytes)
      → AreBytes out
      → n ≤ 8 * length out
      → OneOf h hs
      → all_probes k n (rotate_15 h) h (add_hashes k n hs out) ≡ true
  unfolding add_hashes
  add_hashes_own k h [] out b room m = elim m [ ]
  add_hashes_own k h (x ∷ hs) out b room (inl e) =
      let (g, own) = set_probes-Grown k (rotate_15 x) x out b room in
      let later = add_hashes-Grown k hs _ g.bytes (omega (arith, g.size)) in
      rw e (
        all_probes-Keeps k n (rotate_15 x) x (set_probes k n (rotate_15 x) x out)
          (add_hashes k n hs (set_probes k n (rotate_15 x) x out)) pos later.keeps own)
  add_hashes_own k h (x ∷ hs) out b room (inr m) =
      let (g, _) = set_probes-Grown k (rotate_15 x) x out b room in
      add_hashes_own k h hs _ g.bytes (omega (arith, g.size)) m

set_last : (n k : ℕ) (out : Bytes) → length out ≡ n + 1 → Keeps (n * 8) out (take n (set out n k))
unfolding is_clear
set_last n k out size p lt e =
    let at : get_or (take n (set out n k)) (p / 8) 0 ≡ get_or out (p / 8) 0 =
      get_or-take n (set out n k) (p / 8) 0 (omega arith)
      ∙ get_or-set_ne out n (p / 8) k 0 (λ same. omega arith) in
    rw (is_clear, at) e

built_lem :
    (k n : ℕ) (out key : Bytes)
    → 8 ≤ n
    → length out ≡ n + 1
    → all_probes k (n * 8) (rotate_15 (hash64 key)) (hash64 key) out ≡ true
    → may_contain (set out n k) key ≡ true
unfolding may_contain
built_lem k n out key many size own =
    let bloom = set out n k in
    let whole : length bloom ≡ n + 1 = length-set out n k ∙ size in
    let last : length bloom - 1 ≡ n = omega (arith, whole) in
    let probes : get_or bloom n 0 ≡ k = get_or-set_self out n k 0 (omega arith) in
    let bits : length (take n bloom) ≡ n = length-take n bloom (omega (arith, whole)) in
    rw (may_contain, le→ltb (length bloom) 2 (omega (arith, whole)), last, probes, bits)
      (all_probes-Keeps k (n * 8) (rotate_15 (hash64 key)) (hash64 key) out (take n bloom)
        (omega arith) (set_last n k out size) own)

-- A filter that was built from hashes may contain every key whose hash is one of them: a lookup never
-- skips a table for a key that is there.
pub may_contain-build :
    (env : Env) (hashes : List ℕ) (bits_per_key : ℕ) (key : Bytes)
    → OneOf (hash64 key) hashes
    → may_contain (build env hashes bits_per_key) key ≡ true
unfolding may_contain build
may_contain-build env hashes bits_per_key key m =
    let k = clamp_probes (env.bloom_scale bits_per_key) in
    let n = bytes_for (length hashes * bits_per_key) in
    let zeros : Bytes = replicate (n + 1) 0 in
    let out = add_hashes k (n * 8) hashes zeros in
    let bytes : (i : ℕ) → get_or zeros i 0 < 256 =
      λ i. omega (arith, get_or-replicate {A = ℕ} (n + 1) i 0) in
    built_lem k n out key (omega arith)
      ((add_hashes-Grown (n * 8) (omega arith) k hashes zeros bytes
          (omega (arith, length-replicate {A = ℕ} (n + 1) 0))).size
        ∙ length-replicate {A = ℕ} (n + 1) 0)
      (add_hashes_own (n * 8) (omega arith) k (hash64 key) hashes zeros bytes
        (omega (arith, length-replicate {A = ℕ} (n + 1) 0)) m)
