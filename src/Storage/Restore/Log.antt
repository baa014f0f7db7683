-- ===== src/Storage/Restore/Log.antt =====
-- What replaying a log makes of the records of commands.
use lowdb.Prelude.{
  ℕ, zero, suc, ◌≤◌, ◌<◌, ◌≡◌, refl, ap, sym, ◌∙◌, some, List, [], ◌∷◌, ◌++◌, length, length-append,
  All, arith, append_assoc,
}
use lowdb.Prelude.Bytes.{Bytes, to_be, length-to_be}
use lowdb.Common.Error.{DbResult, ok, err, ◌>>=◌}
use lowdb.Env.{Env}
use lowdb.Wal.{
  WalCmd, tx_begin, tx_commit, op, batch, tx_begin_cmd, tx_commit_cmd, op_cmd, batch_cmd,
}
use lowdb.Wal.Writer.Encoding.{encode_cmd}
use lowdb.Wal.Reader.{next}
use lowdb.Wal.Reader.RoundTrip.{Readable, next-encode_cmd}
use lowdb.Memtable.SkipList.{Rng}
use lowdb.Storage.Restore.{Replay, apply_cmd, replay, replay_log}

-- The commands of a log in turn, and the bytes of their records.
unfoldable pub apply_cmds : Rng → List WalCmd → Replay → DbResult Replay
apply_cmds rng [] p = ok p
apply_cmds rng (c ∷ cs) p = apply_cmd rng c p >>= λ p'. apply_cmds rng cs p'

unfoldable pub encode_cmds : List WalCmd → Bytes
encode_cmds [] = []
encode_cmds (c ∷ cs) = encode_cmd c ++ encode_cmds cs

pub encode_cmds-append :
    (as' bs : List WalCmd) → encode_cmds (as' ++ bs) ≡ encode_cmds as' ++ encode_cmds bs
unfolding encode_cmds
encode_cmds-append [] bs = refl
encode_cmds-append (a ∷ as') bs =
    ap (λ r. encode_cmd a ++ r) (encode_cmds-append as' bs)
    ∙ sym (append_assoc (encode_cmd a) (encode_cmds as') (encode_cmds bs))

pub bind_same :
    {A B : Type 0} (m : DbResult A) (f g : A → DbResult B) {b : B} {r : DbResult B}
    → ((a : A) → f a ≡ ok b → g a ≡ r)
    → (m >>= f) ≡ ok b
    → (m >>= g) ≡ r
bind_same (ok a) f g h e = h a e
bind_same (err x) f g h e = cc

pub apply_cmds-append :
    (rng : Rng) (as' bs : List WalCmd) (p q : Replay)
    → apply_cmds rng as' p ≡ ok q
    → apply_cmds rng (as' ++ bs) p ≡ apply_cmds rng bs q
unfolding apply_cmds
apply_cmds-append rng [] bs p q h = cc
apply_cmds-append rng (a ∷ as') bs p q h =
    bind_same (apply_cmd rng a p) _ _ (λ p' e. apply_cmds-append rng as' bs p' q e) h

pub bind_cong :
    {A B : Type 0} (m : DbResult A) (f g : A → DbResult B)
    → ((a : A) → f a ≡ g a)
    → (m >>= f) ≡ (m >>= g)
bind_cong (ok a) f g h = h a
bind_cong (err e) f g h = refl

begins : (n v : ℕ) (rest : Bytes) → n ≤ length (to_be n v ++ rest)
begins n v rest = omega (arith, length-append (to_be n v) rest, length-to_be n v)

some_bytes : (c : WalCmd) → 1 ≤ length (encode_cmd c)
unfolding encode_cmd
some_bytes (tx_begin t) = begins 1 tx_begin_cmd _
some_bytes (tx_commit t) = begins 1 tx_commit_cmd _
some_bytes (op t k v) = begins 1 op_cmd _
some_bytes (batch t kvs) = begins 1 batch_cmd _

pub length-encode_cmds : (cs : List WalCmd) → length cs ≤ length (encode_cmds cs)
unfolding encode_cmds
length-encode_cmds [] = omega arith
length-encode_cmds (c ∷ cs) =
    omega
      (arith, length-append (encode_cmd c) (encode_cmds cs), some_bytes c, length-encode_cmds cs)

module _ (env : Env) (rng : Rng) where
  replay-encode_cmds :
      (cs : List WalCmd) (fuel : ℕ) (p : Replay)
      → All (Readable env) cs
      → length cs < fuel
      → replay env rng fuel (encode_cmds cs) p ≡ some (apply_cmds rng cs p)
  unfolding replay apply_cmds encode_cmds next
  replay-encode_cmds cs zero p h e = absurd (omega arith)
  replay-encode_cmds [] (suc fuel) p h e =
      rw (replay, next, env.read_uint_eof 1 [] (omega arith)) refl
  replay-encode_cmds (c ∷ cs) (suc fuel) p (h, hs) e =
      rw (replay, next-encode_cmd env c (encode_cmds cs) h)
        (on_applied (apply_cmd rng c p) (λ q. replay-encode_cmds cs fuel q hs (omega arith)))
    where
      on_applied :
          (m : DbResult Replay)
          → ((q : Replay) → replay env rng fuel (encode_cmds cs) q ≡ some (apply_cmds rng cs q))
          → (elim m [ err e ↦ some (err e) | ok q ↦ replay env rng fuel (encode_cmds cs) q ])
            ≡ some (m >>= λ q. apply_cmds rng cs q)
      on_applied (ok q) h = h q
      on_applied (err e) h = refl

  -- Replaying the records of commands carries out the commands in turn, to the end of the log or to the
  -- first that is refused.
  pub replay_log-encode_cmds :
      (cs : List WalCmd) (p : Replay)
      → All (Readable env) cs
      → replay_log env rng (encode_cmds cs) p ≡ apply_cmds rng cs p
  unfolding replay_log
  replay_log-encode_cmds cs p h =
      let ends =
        replay-encode_cmds cs (suc (length (encode_cmds cs))) p h
          (omega (arith, length-encode_cmds cs)) in
      rw (replay_log, ends) refl
