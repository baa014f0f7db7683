-- ===== src/Wal/Reader/Torn.antt =====
-- A record that was cut short, as a crash in the middle of a write leaves it at the end of a log.
use lowdb.Prelude.{
  ℕ, zero, suc, ◌<◌, ◌≡◌, ◌≢◌, refl, sym, ap, ◌∙◌, ◌⊎◌, inl, inr, Option, some, [], ◌∷◌, ◌++◌,
  length, append_assoc, append-nil, arith, Bool, true, false, if◌then◌else◌, take, drop, ◌==◌,
}
use lowdb.Prelude.Bytes.{Bytes, from_be}
use lowdb.Common.Value.{set, delete}
use lowdb.Common.Error.{DbError, DbResult, ok, err, ◌>>=◌, invalid_state}
use lowdb.Env.{Env}
use lowdb.Wal.{WalCmd, tx_begin_cmd, tx_commit_cmd, op_cmd, batch_cmd}
use lowdb.Wal.Writer.Encoding.{encode_cmd}
use lowdb.Wal.Reader.{read_str, read_key, read_value, read_key_value, read_pairs, read_cmd, next}
use lowdb.Wal.Reader.RoundTrip.{Readable, next-encode_cmd}

-- What a read makes of an input, `x`, and of the input with `more` behind it, `y`: a success is kept,
-- and `more` is left over.
data Extends {A : Type 0} (more : Bytes) (x y : DbResult (A × Bytes)) : Type 0 where
  same : (a : A) (rest : Bytes) → x ≡ ok (a, rest) → y ≡ ok (a, rest ++ more) → Extends more x y
  failed : (e : DbError) → x ≡ err e → Extends more x y

pub split_at :
    (n : ℕ) (bs : Bytes)
    → (length bs < n) ⊎ ((length (take n bs) ≡ n) × (take n bs ++ drop n bs ≡ bs))
split_at zero bs = inr (refl, refl)
split_at (suc n) [] = inl (omega arith)
split_at (suc n) (b ∷ bs) = elim (split_at n bs) [
  | inl h ↦ inl (omega arith)
  | inr (h, e) ↦ inr (ap suc h, ap (◌∷◌ b) e)
]

module _ {A B : Type 0} (more : Bytes) where
  Extends-bind :
      (x y : DbResult (A × Bytes)) (f : A × Bytes → DbResult (B × Bytes))
      → Extends more x y
      → ((a : A) (rest : Bytes) → Extends more (f (a, rest)) (f (a, rest ++ more)))
      → Extends more (x >>= f) (y >>= f)
  Extends-bind x y f (same a rest ex ey) k = rw (ex, ey) (k a rest)
  Extends-bind x y f (failed e ex) k = failed e (rw ex)

Extends-ok :
    {A : Type 0} (a : A) (rest more : Bytes) → Extends more (ok (a, rest)) (ok (a, rest ++ more))
Extends-ok a rest more = same a rest refl refl

module _ (env : Env) (more : Bytes) where
  open env use {read_exact, read_uint, from_utf8_lossy}

  exact-Extends : (n : ℕ) (bs : Bytes) → Extends more (read_exact n bs) (read_exact n (bs ++ more))
  exact-Extends n bs = elim (split_at n bs) [
    | inl h ↦ failed _ (env.read_exact_eof n bs h)
    | inr (h, e) ↦
        same (take n bs) (drop n bs) (rw (h, e) at (env.read_exact_ok (take n bs) (drop n bs)))
          (rw (h, ← append_assoc, e) at (env.read_exact_ok (take n bs) (drop n bs ++ more)))
  ]

  uint-Extends : (n : ℕ) (bs : Bytes) → Extends more (read_uint n bs) (read_uint n (bs ++ more))
  uint-Extends n bs = elim (split_at n bs) [
    | inl h ↦ failed _ (env.read_uint_eof n bs h)
    | inr (h, e) ↦
        same (from_be (take n bs)) (drop n bs)
          (rw (h, e) at (env.read_uint_ok (take n bs) (drop n bs)))
          (rw (h, ← append_assoc, e) at (env.read_uint_ok (take n bs) (drop n bs ++ more)))
  ]

  str-Extends :
      (n : ℕ) (bs : Bytes) → Extends more (read_str env n bs) (read_str env n (bs ++ more))
  unfolding read_str
  str-Extends n bs =
      Extends-bind more _ _ _ (exact-Extends n bs) (λ v r. Extends-ok (from_utf8_lossy v) r more)

  key-Extends : (bs : Bytes) → Extends more (read_key env bs) (read_key env (bs ++ more))
  unfolding read_key
  key-Extends bs = Extends-bind more _ _ _ (uint-Extends 2 bs) λ len r.
      Extends-bind more _ _ _ (str-Extends len r)
        λ key r. Extends-bind more _ _ _ (uint-Extends 8 r) (λ seq r. Extends-ok _ r more)

  value_rest :
      (b : Bool) (len : ℕ) (r : Bytes)
      → Extends more
          (if b then ok (delete, r) else (do (value, r) ← read_str env len r; ok (set value, r)))
          (if b
            then ok (delete, r ++ more)
            else (do (value, r) ← read_str env len (r ++ more); ok (set value, r)))
  value_rest true len r = Extends-ok delete r more
  value_rest false len r =
      Extends-bind more _ _ _ (str-Extends len r) (λ v r. Extends-ok (set v) r more)

  value-Extends : (bs : Bytes) → Extends more (read_value env bs) (read_value env (bs ++ more))
  unfolding read_value
  value-Extends bs =
      Extends-bind more _ _ _ (uint-Extends 2 bs) (λ len r. value_rest (len == 0) len r)

  pair-Extends :
      (bs : Bytes) → Extends more (read_key_value env bs) (read_key_value env (bs ++ more))
  unfolding read_key_value
  pair-Extends bs =
      Extends-bind more _ _ _ (key-Extends bs)
        λ k r. Extends-bind more _ _ _ (value-Extends r) (λ v r. Extends-ok (k, v) r more)

  pairs-Extends :
      (n : ℕ) (bs : Bytes) → Extends more (read_pairs env n bs) (read_pairs env n (bs ++ more))
  unfolding read_pairs
  pairs-Extends zero bs = Extends-ok [] bs more
  pairs-Extends (suc n) bs =
      Extends-bind more _ _ _ (pair-Extends bs)
        λ kv r. Extends-bind more _ _ _ (pairs-Extends n r) (λ kvs r. Extends-ok (kv ∷ kvs) r more)

  if_Extends :
      {A : Type 0} (b : Bool) (x y x' y' : DbResult (A × Bytes))
      → Extends more x x'
      → Extends more y y'
      → Extends more (if b then x else y) (if b then x' else y')
  if_Extends true x y x' y' hx hy = hx
  if_Extends false x y x' y' hx hy = hy

  cmd-Extends :
      (c : ℕ) (bs : Bytes) → Extends more (read_cmd env c bs) (read_cmd env c (bs ++ more))
  unfolding read_cmd
  cmd-Extends c bs =
      if_Extends (c == tx_begin_cmd) _ _ _ _
        (Extends-bind more _ _ _ (uint-Extends 8 bs) (λ t r. Extends-ok _ r more))
        (if_Extends (c == tx_commit_cmd) _ _ _ _
          (Extends-bind more _ _ _ (uint-Extends 8 bs) (λ t r. Extends-ok _ r more))
          (if_Extends (c == op_cmd) _ _ _ _
            (Extends-bind more _ _ _ (uint-Extends 8 bs)
              λ t r. Extends-bind more _ _ _ (pair-Extends r) (λ kv r. Extends-ok _ r more))
            (if_Extends (c == batch_cmd) _ _ _ _
              (Extends-bind more _ _ _ (uint-Extends 2 bs) λ len r.
                Extends-bind more _ _ _ (uint-Extends 8 r) λ t r.
                  Extends-bind more _ _ _ (pairs-Extends len r) (λ kvs r. Extends-ok _ r more))
              (failed invalid_state refl))))

module _ (env : Env) where
  pub next_first : (b : ℕ) (bs : Bytes) → next env (b ∷ bs) ≡ read_cmd env (from_be (b ∷ [])) bs
  unfolding next
  next_first b bs =
      let first : env.read_uint 1 (b ∷ bs) ≡ ok (from_be (b ∷ []), bs) =
        env.read_uint_ok (b ∷ []) bs in
      rw (next, first)

  nothing_left : (rest back : Bytes) (x : ℕ) → [] ≢ rest ++ x ∷ back
  nothing_left [] back x e = cc
  nothing_left (y ∷ rest) back x e = cc

  -- From the record of a readable command that ends too early, behind its first byte, `next`
  -- returns an error: not the end of the log, and no command.
  pub next_torn :
      (c : WalCmd) (b x : ℕ) (front back : Bytes)
      → Readable env c
      → encode_cmd c ≡ (b ∷ front) ++ x ∷ back
      → (e : DbError) × (next env (b ∷ front) ≡ err e)
  next_torn c b x front back h cut = go (cmd-Extends env (x ∷ back) (from_be (b ∷ [])) front)
    where
      whole : read_cmd env (from_be (b ∷ [])) (front ++ x ∷ back) ≡ ok (some c, [])
      whole =
          sym (next_first b _)
          ∙ ap (next env) (sym cut)
          ∙ (rw append-nil at (next-encode_cmd env c [] h))

      go :
          Extends
            (x ∷ back)
            (read_cmd env (from_be (b ∷ [])) front)
            (read_cmd env (from_be (b ∷ [])) (front ++ x ∷ back))
          → (e : DbError) × (next env (b ∷ front) ≡ err e)
      go (same a rest ex ey) = absurd (nothing_left rest back x (ap left_over (sym whole ∙ ey)))
        where
          left_over : DbResult (Option WalCmd × Bytes) → Bytes
          left_over (ok (_, r)) = r
          left_over (err e) = []
      go (failed e ex) = (e, next_first b front ∙ ex)
