-- ===== src/Wal/Writer.antt =====
-- wal/src/writer.rs. An action takes the buffered file and returns its result and the file, so what
-- a failed action has written already stays in the buffer, as it does in the program. The mutex
-- round the file orders the calls; each call here is one that holds it.
pub mod Encoding
pub mod Success
use lowdb.Prelude.{ℕ, List, [], ◌∷◌, length}
use lowdb.Prelude.Bytes.{Bytes, to_be}
use lowdb.Common.Key.{Key}
use lowdb.Common.Value.{Value, set, delete}
use lowdb.Common.Error.{DbResult, ok, err, try_u16}
use lowdb.Env.{Env}
use lowdb.Wal.{
  WalCmd, tx_begin, tx_commit, op, batch, tx_begin_cmd, tx_commit_cmd, op_cmd, batch_cmd,
}

module _ (env : Env) where
  open env use {BufWriter, write_all, flush}

  abbrev pub Write : Type 0 → Type 0
  Write A = BufWriter → DbResult A × BufWriter

  infixl 5 ◌>>=◌ ◌>>◌
  unfoldable pub ◌>>=◌ : {A B : Type 0} → Write A → (A → Write B) → Write B
  ◌>>=◌ m f w = let (r, w') = m w in elim r [ ok a ↦ f a w' | err e ↦ (err e, w') ]

  unfoldable pub ◌>>◌ : {B : Type 0} → Write (Unit {0}) → Write B → Write B
  unfolding ◌>>=◌
  m >> k = m >>= λ _. k

  unfoldable pub lift : {A : Type 0} → DbResult A → Write A
  lift r w = (r, w)

  unfoldable pub write_uint : ℕ → ℕ → Write (Unit {0})
  write_uint n v = write_all (to_be n v)

  unfoldable pub append_tx_begin : ℕ → Write (Unit {0})
  append_tx_begin tx_id = do write_uint 1 tx_begin_cmd; write_uint 8 tx_id

  unfoldable pub append_tx_commit : ℕ → Write (Unit {0})
  append_tx_commit tx_id = do write_uint 1 tx_commit_cmd; write_uint 8 tx_id

  unfoldable pub append_value : Value → Write (Unit {0})
  append_value (set value) = do
    len ← lift (try_u16 (length value))
    write_uint 2 len
    write_all value
  append_value delete = write_uint 2 0

  unfoldable pub append_key_value : Key → Value → Write (Unit {0})
  append_key_value key value = do
    len ← lift (try_u16 (length key.user))
    write_uint 2 len
    write_all key.user
    write_uint 8 key.seq
    append_value value

  unfoldable pub append_op : ℕ → Key → Value → Write (Unit {0})
  append_op tx_id key value = do write_uint 1 op_cmd; write_uint 8 tx_id; append_key_value key value

  -- the `for` loop of `append_batch`
  unfoldable pub append_pairs : List (Key × Value) → Write (Unit {0})
  append_pairs [] = lift (ok tt)
  append_pairs ((k, v) ∷ kvs) = do append_key_value k v; append_pairs kvs

  unfoldable pub append_batch : ℕ → List (Key × Value) → Write (Unit {0})
  append_batch tx_id kvs = do
    len ← lift (try_u16 (length kvs))
    write_uint 1 batch_cmd
    write_uint 2 len
    write_uint 8 tx_id
    append_pairs kvs

  -- `WalWriter::append`, and its two shortcuts
  unfoldable pub append_cmd : WalCmd → Write (Unit {0})
  append_cmd (tx_begin tx_id) = append_tx_begin tx_id
  append_cmd (tx_commit tx_id) = append_tx_commit tx_id
  append_cmd (op tx_id key value) = append_op tx_id key value
  append_cmd (batch tx_id kvs) = append_batch tx_id kvs

  unfoldable pub append : WalCmd → Write (Unit {0})
  append cmd = do append_cmd cmd; flush

  unfoldable pub append_batch_sync : ℕ → List (Key × Value) → Write (Unit {0})
  append_batch_sync tx_id kvs = do append_batch tx_id kvs; flush

  unfoldable pub append_kv : ℕ → Key → Value → Write (Unit {0})
  append_kv tx_id key value = do append_op tx_id key value; flush
