-- ===== src/Wal/Writer/Success.antt =====
-- Where the disk takes every write, appending a command that fits succeeds.
use lowdb.Prelude.{ℕ, ◌<◌, ◌≡◌, refl, List, [], ◌∷◌, length, All}
use lowdb.Prelude.Bytes.{Bytes}
use lowdb.Common.Key.{Key}
use lowdb.Common.Value.{Value, set, delete}
use lowdb.Common.Error.{ok, try_u16, try_u16_fits}
use lowdb.Env.{Env}
use lowdb.Wal.{WalCmd, tx_begin, tx_commit, op, batch}
use lowdb.Wal.Writer.{
  Write, ◌>>=◌, ◌>>◌, lift, write_uint, append_tx_begin, append_tx_commit, append_value,
  append_key_value, append_op, append_pairs, append_batch, append_cmd, append,
}
use lowdb.Wal.Writer.Encoding.{FitsValue, FitsPair, Fits, bind_of_ok}

-- Every write and every flush returns without an error.
pub record IsReliable (env : Env) : Type 0 where
  pub writes : (bs : Bytes) (w : env.BufWriter) → (env.write_all bs w).0 ≡ ok tt
  pub flushes : (w : env.BufWriter) → (env.flush w).0 ≡ ok tt

module _ (env : Env) (reliable : IsReliable env) where
  open env use {BufWriter}

  record Succeeds (m : Write env (Unit {0})) : Type 0 where
    at : (w : BufWriter) → (m w).0 ≡ ok tt

  all_ok : (bs : Bytes) → Succeeds (env.write_all bs)
  all_ok bs = record { at = reliable.writes bs }

  uint_ok : (n v : ℕ) → Succeeds (write_uint env n v)
  unfolding write_uint
  uint_ok n v = record { at = reliable.writes _ }

  nothing_ok : Succeeds (lift env (ok tt))
  unfolding lift
  nothing_ok = record { at = λ w. refl }

  then_ok : {m k : Write env (Unit {0})} → Succeeds m → Succeeds k → Succeeds (◌>>◌ env m k)
  then_ok {m} {k} sm sk = record { at = λ w. bind_of_ok env m k w (sm.at w) (sk.at (m w).1) }

  u16_ok :
      (n : ℕ) (f : ℕ → Write env (Unit {0}))
      → n < 65536
      → Succeeds (f n)
      → Succeeds (◌>>=◌ env (lift env (try_u16 n)) f)
  unfolding ◌>>=◌ lift
  u16_ok n f h sf = record { at = λ w. rw (try_u16_fits n h) (sf.at w) }

  value_ok : (v : Value) → FitsValue v → Succeeds (append_value env v)
  unfolding append_value
  value_ok (set v) h = u16_ok _ _ h (then_ok (uint_ok 2 (length v)) (all_ok v))
  value_ok delete h = uint_ok 2 0

  pair_ok : (k : Key) (v : Value) → FitsPair (k, v) → Succeeds (append_key_value env k v)
  unfolding append_key_value
  pair_ok k v (hk, hv) = u16_ok _ _ hk (
      then_ok (uint_ok 2 (length k.user))
        (then_ok (all_ok k.user) (then_ok (uint_ok 8 k.seq) (value_ok v hv))))

  pairs_ok : (kvs : List (Key × Value)) → All FitsPair kvs → Succeeds (append_pairs env kvs)
  unfolding append_pairs
  pairs_ok [] h = nothing_ok
  pairs_ok ((k, v) ∷ kvs) (h, hs) = then_ok (pair_ok k v h) (pairs_ok kvs hs)

  cmd_ok : (c : WalCmd) → Fits c → Succeeds (append_cmd env c)
  unfolding append_cmd append_tx_begin append_tx_commit append_op append_batch
  cmd_ok (tx_begin t) h = then_ok (uint_ok 1 _) (uint_ok 8 t)
  cmd_ok (tx_commit t) h = then_ok (uint_ok 1 _) (uint_ok 8 t)
  cmd_ok (op t k v) h = then_ok (uint_ok 1 _) (then_ok (uint_ok 8 t) (pair_ok k v h))
  cmd_ok (batch t kvs) (h, hs) = u16_ok _ _ h (
      then_ok (uint_ok 1 _)
        (then_ok (uint_ok 2 (length kvs)) (then_ok (uint_ok 8 t) (pairs_ok kvs hs))))

  -- On a disk that takes every write, `append` of a command that fits its record returns `ok`.
  pub append_succeeds : (c : WalCmd) (w : BufWriter) → Fits c → (append env c w).0 ≡ ok tt
  unfolding append
  append_succeeds c w h =
      bind_of_ok env (append_cmd env c) env.flush w ((cmd_ok c h).at w) (reliable.flushes _)
