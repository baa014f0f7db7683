-- ===== src/Wal/Reader/Progress.antt =====
-- Reading never gives bytes back, and each command takes some.
use lowdb.Prelude.{
  ℕ, zero, suc, ◌≤◌, ◌<◌, ◌≡◌, refl, ap, sym, ◌∙◌, inl, inr, Bool, true, false, Option, some, [],
  ◌∷◌, length, length-append, arith, take, drop, if◌then◌else◌, ◌==◌,
}
use lowdb.Prelude.Bytes.{Bytes, from_be}
use lowdb.Common.Value.{set, delete}
use lowdb.Common.Error.{DbError, DbResult, ok, err, ◌>>=◌}
use lowdb.Env.{Env}
use lowdb.Wal.{WalCmd, tx_begin_cmd, tx_commit_cmd, op_cmd, batch_cmd}
use lowdb.Wal.Reader.{read_str, read_key, read_value, read_key_value, read_pairs, read_cmd, next}
use lowdb.Wal.Reader.Torn.{split_at, next_first}

-- What `x` leaves over is at most `n` bytes long.
data Leaves {A : Type 0} (n : ℕ) (x : DbResult (A × Bytes)) : Type 0 where
  left : (a : A) (rest : Bytes) → x ≡ ok (a, rest) → length rest ≤ n → Leaves n x
  stopped : (e : DbError) → x ≡ err e → Leaves n x

Leaves-bind :
    {A B : Type 0} (n : ℕ) (x : DbResult (A × Bytes)) (f : A × Bytes → DbResult (B × Bytes))
    → Leaves n x
    → ((a : A) (r : Bytes) → Leaves (length r) (f (a, r)))
    → Leaves n (x >>= f)
Leaves-bind n x f (stopped e ex) k = stopped e (rw ex)
Leaves-bind n x f (left a r ex le) k = go (k a r)
  where
    go : Leaves (length r) (f (a, r)) → Leaves n (x >>= f)
    go (left b r' ef le') = left b r' (rw (ex, ef)) (omega arith)
    go (stopped e ef) = stopped e (rw (ex, ef))

Leaves-ok : {A : Type 0} (a : A) (r : Bytes) → Leaves (length r) (ok (a, r))
Leaves-ok a r = left a r refl (omega arith)

Leaves-if :
    {A : Type 0} (n : ℕ) (b : Bool) (x y : DbResult (A × Bytes))
    → Leaves n x
    → Leaves n y
    → Leaves n (if b then x else y)
Leaves-if n true x y hx hy = hx
Leaves-if n false x y hx hy = hy

module _ (env : Env) where
  open env use {read_exact, read_uint, from_utf8_lossy}

  exact-Leaves : (n : ℕ) (r : Bytes) → Leaves (length r) (read_exact n r)
  exact-Leaves n r = elim (split_at n r) [
    | inl h ↦ stopped _ (env.read_exact_eof n r h)
    | inr (h, e) ↦
        left (take n r) (drop n r) (rw (h, e) at (env.read_exact_ok (take n r) (drop n r)))
          (omega (arith, length-append (take n r) (drop n r), ap length e))
  ]

  uint-Leaves : (n : ℕ) (r : Bytes) → Leaves (length r) (read_uint n r)
  uint-Leaves n r = elim (split_at n r) [
    | inl h ↦ stopped _ (env.read_uint_eof n r h)
    | inr (h, e) ↦
        left (from_be (take n r)) (drop n r) (rw (h, e) at (env.read_uint_ok (take n r) (drop n r)))
          (omega (arith, length-append (take n r) (drop n r), ap length e))
  ]

  str-Leaves : (n : ℕ) (r : Bytes) → Leaves (length r) (read_str env n r)
  unfolding read_str
  str-Leaves n r = Leaves-bind _ _ _ (exact-Leaves n r) (λ v r'. Leaves-ok (from_utf8_lossy v) r')

  key-Leaves : (r : Bytes) → Leaves (length r) (read_key env r)
  unfolding read_key
  key-Leaves r = Leaves-bind _ _ _ (uint-Leaves 2 r) λ len r.
      Leaves-bind _ _ _ (str-Leaves len r)
        λ key r. Leaves-bind _ _ _ (uint-Leaves 8 r) (λ seq r. Leaves-ok _ r)

  value-Leaves : (r : Bytes) → Leaves (length r) (read_value env r)
  unfolding read_value
  value-Leaves r = Leaves-bind _ _ _ (uint-Leaves 2 r) λ len r.
      Leaves-if _ (len == 0) _ _ (Leaves-ok delete r)
        (Leaves-bind _ _ _ (str-Leaves len r) (λ v r. Leaves-ok (set v) r))

  pair-Leaves : (r : Bytes) → Leaves (length r) (read_key_value env r)
  unfolding read_key_value
  pair-Leaves r =
      Leaves-bind _ _ _ (key-Leaves r)
        λ k r. Leaves-bind _ _ _ (value-Leaves r) (λ v r. Leaves-ok (k, v) r)

  pairs-Leaves : (n : ℕ) (r : Bytes) → Leaves (length r) (read_pairs env n r)
  unfolding read_pairs
  pairs-Leaves zero r = Leaves-ok [] r
  pairs-Leaves (suc n) r =
      Leaves-bind _ _ _ (pair-Leaves r)
        λ kv r. Leaves-bind _ _ _ (pairs-Leaves n r) (λ kvs r. Leaves-ok (kv ∷ kvs) r)

  cmd-Leaves : (c : ℕ) (r : Bytes) → Leaves (length r) (read_cmd env c r)
  unfolding read_cmd
  cmd-Leaves c r =
      Leaves-if _ (c == tx_begin_cmd) _ _
        (Leaves-bind _ _ _ (uint-Leaves 8 r) (λ t r. Leaves-ok _ r))
        (Leaves-if _ (c == tx_commit_cmd) _ _
          (Leaves-bind _ _ _ (uint-Leaves 8 r) (λ t r. Leaves-ok _ r))
          (Leaves-if _ (c == op_cmd) _ _
            (Leaves-bind _ _ _ (uint-Leaves 8 r)
              λ t r. Leaves-bind _ _ _ (pair-Leaves r) (λ kv r. Leaves-ok _ r))
            (Leaves-if _ (c == batch_cmd) _ _
              (Leaves-bind _ _ _ (uint-Leaves 2 r) λ len r.
                Leaves-bind _ _ _ (uint-Leaves 8 r)
                  λ t r. Leaves-bind _ _ _ (pairs-Leaves len r) (λ kvs r. Leaves-ok _ r))
              (stopped _ refl))))

  -- Where `next` returns a command, it has taken at least one byte.
  pub next_takes :
      (r rest : Bytes) (c : WalCmd) → next env r ≡ ok (some c, rest) → length rest < length r
  unfolding next
  next_takes [] rest c h =
      let none_left = rw (next, env.read_uint_eof 1 [] (omega arith)) at h in cc
  next_takes (b ∷ r) rest c h = go (cmd-Leaves (from_be (b ∷ [])) r)
    where
      first : next env (b ∷ r) ≡ read_cmd env (from_be (b ∷ [])) r
      first = next_first env b r

      go : Leaves (length r) (read_cmd env (from_be (b ∷ [])) r) → length rest < suc (length r)
      go (left a r' e le) =
          let last : r' ≡ rest = ap left_over (sym e ∙ sym first ∙ h) in
          omega (arith, ap length last)
        where
          left_over : DbResult (Option WalCmd × Bytes) → Bytes
          left_over (ok (_, bs)) = bs
          left_over (err e) = []
      go (stopped e ex) = absurd (ok_not_err (sym ex ∙ sym first ∙ h))
        where
          ok_not_err : {A : Type 0} {f : DbError} {a : A} → err f ≡ ok a → ⊥
          ok_not_err eq = cc
