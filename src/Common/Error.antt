-- ===== src/Common/Error.antt =====
-- common/src/error.rs and `DbResult` of common/src/lib.rs. The texts that the variants carry are for
-- people and no code reads them, so they are left out. Of an I/O error the code reads the kind.
use lowdb.Prelude.{ℕ, ◌<◌, ◌≤◌, ◌≡◌, refl, arith, ltb, if◌then◌else◌}

pub data ErrorKind : Type 0 where
  unexpected_eof not_found other : ErrorKind

pub data DbError : Type 0 where
  invalid_int invalid_value invalid_state commit_conflict : DbError
  io : ErrorKind → DbError

pub data DbResult {ℓ} (A : Type ℓ) : Type ℓ where
  ok : A → DbResult A
  err : DbError → DbResult A

-- The `?` of a result whose success is used by what follows.
infixl 5 ◌>>=◌ ◌>>◌
abbrev pub ◌>>=◌ {ℓ κ} : {A : Type ℓ} {B : Type κ} → DbResult A → (A → DbResult B) → DbResult B
err failure >>= next_step = err failure
ok value >>= next_step = next_step value

-- The same where the success carries nothing.
abbrev pub ◌>>◌ {ℓ} : {C : Type ℓ} → DbResult (Unit {0}) → DbResult C → DbResult C
err failure >> next_step = err failure
ok done >> next_step = next_step

-- `u16::try_from` on a `usize`, with the error that `From<TryFromIntError>` makes of it.
unfoldable pub try_u16 : ℕ → DbResult ℕ
try_u16 n = if ltb n 65536 then ok n else err invalid_int

pub try_u16_fits : (n : ℕ) → n < 65536 → try_u16 n ≡ ok n
unfolding try_u16
try_u16_fits n h = ground arith

pub try_u16_long : (n : ℕ) → 65536 ≤ n → try_u16 n ≡ err invalid_int
unfolding try_u16
try_u16_long n h = ground arith

-- `?` and `Ok(())`, and `map(|_| ())`
abbrev pub discard : {A : Type 0} → DbResult A → DbResult (Unit {0})
discard (ok a) = ok tt
discard (err e) = err e

pub discard_ok : {A : Type 0} (r : DbResult A) → discard r ≡ ok tt → (a : A) × (r ≡ ok a)
discard_ok (ok a) h = (a, refl)
discard_ok (err e) h = absurd (cc)

-- A chain that succeeds has succeeded at each step.
pub bind_inv {ℓ κ} :
    {A : Type ℓ} {B : Type κ} (x : DbResult A) (f : A → DbResult B) (b : B)
    → (x >>= f) ≡ ok b
    → (a : A) × (x ≡ ok a) × (f a ≡ ok b)
bind_inv (ok a) f b e = (a, refl, e)
bind_inv (err x) f b e = absurd (cc)
