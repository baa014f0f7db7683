-- ===== src/Sstable/Bloom.antt =====
-- sstable/src/bloom.rs. A filter is its bytes, the number of probes last.
pub mod Bits
pub mod Sound
use Prim.Native.Nat.{bit_and, bit_or, bit_xor}
use lowdb.Prelude.{
  ℕ, zero, suc, ◌+◌, ◌-◌, ◌*◌, ◌/◌, ◌%◌, ◌^◌, max, min, Bool, true, false, List, [], ◌∷◌, ◌++◌,
  length, get_or, set, replicate, take, ltb, ◌==◌, if◌then◌else◌,
}
use lowdb.Prelude.Bytes.{Bytes, to_be}
use lowdb.Common.Error.{DbResult, ok, ◌>>=◌}
use lowdb.Env.{Env}

-- `u64::wrapping_add`, `u64::wrapping_mul` and `u64::rotate_left(15)`
abbrev pub wrapping_add : ℕ → ℕ → ℕ
wrapping_add a b = (a + b) % 2 ^ 64

abbrev pub wrapping_mul : ℕ → ℕ → ℕ
wrapping_mul a b = (a * b) % 2 ^ 64

abbrev pub rotate_15 : ℕ → ℕ
rotate_15 h = (h * 2 ^ 15) % 2 ^ 64 + h / 2 ^ 49

hash_from : ℕ → Bytes → ℕ
hash_from h [] = h
hash_from h (x ∷ xs) = hash_from (wrapping_mul (bit_xor h x) 0x100000001b3) xs

unfoldable pub hash64 : Bytes → ℕ
unfolding hash_from
hash64 key = hash_from 0xcbf29ce484222325 key

-- `out[pos / 8] |= 1 << (pos % 8)`
unfoldable pub set_bit : ℕ → Bytes → Bytes
set_bit pos out = set out (pos / 8) (bit_or (get_or out (pos / 8) 0) (2 ^ (pos % 8)))

-- `bits[pos / 8] & (1 << (pos % 8)) == 0`
unfoldable pub is_clear : ℕ → Bytes → Bool
is_clear pos bits = bit_and (get_or bits (pos / 8) 0) (2 ^ (pos % 8)) == 0

-- the inner loop of `build`
unfoldable pub set_probes : ℕ → ℕ → ℕ → ℕ → Bytes → Bytes
set_probes zero nbits delta b out = out
set_probes (suc k) nbits delta b out =
    set_probes k nbits delta (wrapping_add b delta) (set_bit (b % nbits) out)

-- the outer loop of `build`
unfoldable pub add_hashes : ℕ → ℕ → List ℕ → Bytes → Bytes
add_hashes k nbits [] out = out
add_hashes k nbits (h ∷ hs) out = add_hashes k nbits hs (set_probes k nbits (rotate_15 h) h out)

-- `clamp(1, 30)`
abbrev pub clamp_probes : ℕ → ℕ
clamp_probes n = max 1 (min n 30)

-- `.max(64).div_ceil(8)`
abbrev pub bytes_for : ℕ → ℕ
bytes_for bits = (max bits 64 + 7) / 8

unfoldable pub build : Env → List ℕ → ℕ → Bytes
build env hashes bits_per_key =
    let k = clamp_probes (env.bloom_scale bits_per_key) in
    let nbytes = bytes_for (length hashes * bits_per_key) in
    let out = add_hashes k (nbytes * 8) hashes (replicate (nbytes + 1) 0) in set out nbytes k

-- the loop of `may_contain`
unfoldable pub all_probes : ℕ → ℕ → ℕ → ℕ → Bytes → Bool
all_probes zero nbits delta b bits = true
all_probes (suc k) nbits delta b bits =
    let rest = all_probes k nbits delta (wrapping_add b delta) bits in
    if is_clear (b % nbits) bits then false else rest

unfoldable pub may_contain : Bytes → Bytes → Bool
may_contain bloom key =
    if ltb (length bloom) 2
    then true
    else let k = get_or bloom (length bloom - 1) 0 in
      let bits = take (length bloom - 1) bloom in
      let h = hash64 key in all_probes k (length bits * 8) (rotate_15 h) h bits

unfoldable pub disk_size : Bytes → ℕ
disk_size bloom = 4 + length bloom
