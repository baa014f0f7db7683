-- ===== src/Storage/Restore/Torn.antt =====
-- A log whose last record a crash has cut short.
use lowdb.Prelude.{
  ℕ, suc, ◌+◌, ◌-◌, ◌≡◌, ap, refl, ◌∙◌, some, List, [], ◌∷◌, ◌++◌, length, length-append,
  append_assoc, All, arith,
}
use lowdb.Prelude.Bytes.{Bytes}
use lowdb.Common.Error.{DbError, DbResult, ok, err, ◌>>=◌}
use lowdb.Env.{Env}
use lowdb.Wal.{WalCmd}
use lowdb.Wal.Writer.Encoding.{encode_cmd}
use lowdb.Wal.Reader.{next}
use lowdb.Wal.Reader.RoundTrip.{Readable, next-encode_cmd}
use lowdb.Wal.Reader.Torn.{next_torn}
use lowdb.Memtable.SkipList.{Rng}
use lowdb.Storage.Restore.{Replay, apply_cmd, replay, replay_log}
use lowdb.Storage.Restore.Log.{apply_cmds, encode_cmds, length-encode_cmds}

-- `n` steps more than there are commands
unfoldable steps : List WalCmd → ℕ → ℕ
steps [] n = n
steps (c ∷ cs) n = suc (steps cs n)

steps_lem : (cs : List WalCmd) (n : ℕ) → steps cs n ≡ length cs + n
unfolding steps
steps_lem [] n = omega arith
steps_lem (c ∷ cs) n = omega (arith, steps_lem cs n)

module _ (env : Env) (rng : Rng) where
  replay-append :
      (cs : List WalCmd) (rest : Bytes) (n : ℕ) (p q : Replay)
      → All (Readable env) cs
      → apply_cmds rng cs p ≡ ok q
      → replay env rng (steps cs n) (encode_cmds cs ++ rest) p ≡ replay env rng n rest q
  unfolding apply_cmds encode_cmds replay steps
  replay-append [] rest n p q h e = ap (λ r. replay env rng n rest r) (ok_inj e)
    where
      ok_inj : {a b : Replay} → ok a ≡ ok b → a ≡ b
      ok_inj h = cc
  replay-append (c ∷ cs) rest n p q (h, hs) e =
      rw
        (
          replay,
          append_assoc (encode_cmd c) (encode_cmds cs) rest,
          next-encode_cmd env c (encode_cmds cs ++ rest) h,
        )
        (on_applied (apply_cmd rng c p) (λ p' e'. replay-append cs rest n p' q hs e') e)
    where
      on_applied :
          (m : DbResult Replay)
          → ((p' : Replay)
              → apply_cmds rng cs p' ≡ ok q
              → replay env rng (steps cs n) (encode_cmds cs ++ rest) p' ≡ replay env rng n rest q)
          → (m >>= λ p'. apply_cmds rng cs p') ≡ ok q
          → (elim m [
            | err e ↦ some (err e)
            | ok p' ↦ replay env rng (steps cs n) (encode_cmds cs ++ rest) p'
          ])
            ≡ replay env rng n rest q
      on_applied (ok p') h e = h p' e
      on_applied (err x) h e = cc

  -- Where the records of readable commands that are carried out without an error are followed by
  -- the record of another readable command that ends too early, behind its first byte, replaying
  -- the log comes to an end at that record, and returns the error that `next` has there.
  pub replay_log_torn :
      (cs : List WalCmd) (p q : Replay) (c : WalCmd) (b x : ℕ) (front back : Bytes)
      → All (Readable env) cs
      → apply_cmds rng cs p ≡ ok q
      → Readable env c
      → encode_cmd c ≡ (b ∷ front) ++ x ∷ back
      → (e : DbError) × (next env (b ∷ front) ≡ err e)
        × (replay env rng
              (suc (length (encode_cmds cs ++ b ∷ front)))
              (encode_cmds cs ++ b ∷ front)
              p
            ≡ some (err e))
        × (replay_log env rng (encode_cmds cs ++ b ∷ front) p ≡ err e)
  unfolding replay_log
  replay_log_torn cs p q c b x front back hs run h cut =
      let (e, torn) = next_torn env c b x front back h cut in
      let m = length (encode_cmds cs ++ b ∷ front) - length cs in
      let enough : suc (length (encode_cmds cs ++ b ∷ front)) ≡ steps cs (suc m) = omega (
        arith,
        steps_lem cs (suc m),
        length-encode_cmds cs,
        length-append (encode_cmds cs) (b ∷ front),
      ) in
      let stopped =
        ap (λ n. replay env rng n (encode_cmds cs ++ b ∷ front) p) enough
        ∙ replay-append cs (b ∷ front) (suc m) p q hs run
        ∙ stops m e torn in
      (e, torn, stopped, rw (replay_log, stopped) refl)
    where
      stops :
          (m : ℕ) (e : DbError)
          → next env (b ∷ front) ≡ err e
          → replay env rng (suc m) (b ∷ front) q ≡ some (err e)
      stops m e torn = unfold replay in rw (replay, torn) refl
