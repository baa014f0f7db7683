-- ===== src/Storage/Success.antt =====
-- Where the disk takes every write, writing batches that fit succeeds.
use lowdb.Prelude.{ℕ, ◌≡◌, refl, List, [], ◌∷◌, All}
use lowdb.Common.Key.{Key}
use lowdb.Common.Value.{Value}
use lowdb.Common.Error.{ok}
use lowdb.Env.{Env}
use lowdb.Wal.{tx_begin, tx_commit, batch}
use lowdb.Wal.Writer.{append, append_cmd, append_batch_sync}
use lowdb.Wal.Writer.Encoding.{Fits}
use lowdb.Wal.Writer.Success.{IsReliable, append_succeeds}
use lowdb.Storage.{State, set_batch, set_batches}

abbrev pub FitsBatch : ℕ × List (Key × Value) → Type 0
FitsBatch (t, kvs) = Fits (batch t kvs)

module _ (env : Env) (reliable : IsReliable env) where
  batch_succeeds :
      (t : ℕ) (kvs : List (Key × Value)) (w : env.BufWriter)
      → Fits (batch t kvs)
      → (append_batch_sync env t kvs w).0 ≡ ok tt
  unfolding append_batch_sync append append_cmd
  batch_succeeds t kvs w h =
      unfold append append_cmd in append_succeeds env reliable (batch t kvs) w h

  pub set_batch_succeeds :
      (t : ℕ) (kvs : List (Key × Value)) (s : State env)
      → Fits (batch t kvs)
      → (set_batch env t kvs s).0 ≡ ok tt
  unfolding set_batch
  set_batch_succeeds t kvs s h =
      let w = (append env (tx_begin t) s.wal).1 in
      let w' = (append_batch_sync env t kvs w).1 in
      rw (
        set_batch,
        append_succeeds env reliable (tx_begin t) s.wal tt,
        batch_succeeds t kvs w h,
        append_succeeds env reliable (tx_commit t) w' tt,
      )

  -- On a disk that takes every write, writing batches whose keys, values and lengths fit their fields
  -- succeeds to the last one.
  pub set_batches_succeeds :
      (bs : List (ℕ × List (Key × Value))) (s : State env)
      → All FitsBatch bs
      → (set_batches env bs s).0 ≡ ok tt
  unfolding set_batches
  set_batches_succeeds [] s h = refl
  set_batches_succeeds ((t, kvs) ∷ bs) s (h, hs) =
      rw (set_batches, set_batch_succeeds t kvs s h)
        (set_batches_succeeds bs (set_batch env t kvs s).1 hs)
