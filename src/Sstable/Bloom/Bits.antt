-- ===== src/Sstable/Bloom/Bits.antt =====
-- Bits of bytes: a bit that was set is not clear, and stays so when another is set.
use Prim.Native.Nat.{bit_and, bit_or}
use lowdb.Prelude.{
  ℕ, zero, suc, ◌^◌, ◌<◌, ◌≡◌, refl, Bool, true, false, not, ◌&&◌, ◌||◌, ◌==◌, ltb, ltb→lt, arith,
}

all_below : ℕ → (ℕ → Bool) → Bool
all_below zero p = true
all_below (suc n) p = let rest = all_below n p in p n && rest

below_lem : (n : ℕ) (p : ℕ → Bool) (x : ℕ) → all_below n p ≡ true → x < n → p x ≡ true
unfolding all_below
below_lem zero p x h lt = absurd (omega arith)
below_lem (suc n) p x h lt = ground (arith, below_lem n p x)

abbrev own : ℕ → ℕ → Bool
own i b = not (bit_and (bit_or b (2 ^ i)) (2 ^ i) == 0) && ltb (bit_or b (2 ^ i)) 256

abbrev other : ℕ → ℕ → ℕ → Bool
other i j b = (bit_and b (2 ^ i) == 0) || not (bit_and (bit_or b (2 ^ j)) (2 ^ i) == 0)

own_table : all_below 8 (λ i. all_below 256 (own i)) ≡ true
unfolding all_below
own_table = refl

other_table : all_below 8 (λ i. all_below 8 (λ j. all_below 256 (other i j))) ≡ true
unfolding all_below
other_table = refl

own_lem : (i b : ℕ) → i < 8 → b < 256 → own i b ≡ true
own_lem i b hi hb =
    below_lem 256 (own i) b (below_lem 8 (λ i. all_below 256 (own i)) i own_table hi) hb

pub set_own : (i b : ℕ) → i < 8 → b < 256 → (bit_and (bit_or b (2 ^ i)) (2 ^ i) == 0) ≡ false
set_own i b hi hb = let t = own_lem i b hi hb in ground arith

pub set_byte : (i b : ℕ) → i < 8 → b < 256 → bit_or b (2 ^ i) < 256
set_byte i b hi hb = let t = own_lem i b hi hb in ltb→lt (bit_or b (2 ^ i)) 256 (ground arith)

pub set_other :
    (i j b : ℕ)
    → i < 8
    → j < 8
    → b < 256
    → (bit_and b (2 ^ i) == 0) ≡ false
    → (bit_and (bit_or b (2 ^ j)) (2 ^ i) == 0) ≡ false
set_other i j b hi hj hb h =
    let t =
      below_lem 256 (other i j) b
        (below_lem 8 (λ j. all_below 256 (other i j)) j
          (below_lem 8 (λ i. all_below 8 (λ j. all_below 256 (other i j))) i other_table hi) hj)
        hb in
    ground arith
