-- ===== src/Wal/Writer/Encoding.antt =====
-- The record of a command, written down at once, and that the writer appends exactly that record.
use lowdb.Prelude.{
  ℕ, ap, ◌<◌, ◌≡◌, refl, sym, ◌∙◌, List, [], ◌∷◌, ◌++◌, length, append_assoc, append-nil, arith,
  All,
}
use lowdb.Prelude.Bytes.{Bytes, to_be}
use lowdb.Common.Key.{Key}
use lowdb.Common.Value.{Value, set, delete}
use lowdb.Common.Error.{ok, err, try_u16}
use lowdb.Env.{Env}
use lowdb.Wal.{
  WalCmd, tx_begin, tx_commit, op, batch, tx_begin_cmd, tx_commit_cmd, op_cmd, batch_cmd,
}
use lowdb.Wal.Writer.{
  Write, ◌>>=◌, ◌>>◌, lift, write_uint, append_tx_begin, append_tx_commit, append_value,
  append_key_value, append_op, append_pairs, append_batch, append_cmd, append,
}

unfoldable pub value_bytes : Value → Bytes
value_bytes (set v) = to_be 2 (length v) ++ v
value_bytes delete = to_be 2 0

unfoldable pub pair_bytes : Key → Value → Bytes
pair_bytes k v = to_be 2 (length k.user) ++ (k.user ++ (to_be 8 k.seq ++ value_bytes v))

unfoldable pub pairs_bytes : List (Key × Value) → Bytes
pairs_bytes [] = []
pairs_bytes ((k, v) ∷ kvs) = pair_bytes k v ++ pairs_bytes kvs

unfoldable pub encode_cmd : WalCmd → Bytes
encode_cmd (tx_begin t) = to_be 1 tx_begin_cmd ++ to_be 8 t
encode_cmd (tx_commit t) = to_be 1 tx_commit_cmd ++ to_be 8 t
encode_cmd (op t k v) = to_be 1 op_cmd ++ (to_be 8 t ++ pair_bytes k v)
encode_cmd (batch t kvs) =
    to_be 1 batch_cmd ++ (to_be 2 (length kvs) ++ (to_be 8 t ++ pairs_bytes kvs))

-- The lengths that a record has room for.
abbrev pub FitsValue : Value → Type 0
FitsValue (set v) = length v < 65536
FitsValue delete = Unit

abbrev pub FitsPair : Key × Value → Type 0
FitsPair (k, v) = (length k.user < 65536) × FitsValue v

abbrev pub Fits : WalCmd → Type 0
Fits (tx_begin t) = Unit
Fits (tx_commit t) = Unit
Fits (op t k v) = FitsPair (k, v)
Fits (batch t kvs) = (length kvs < 65536) × All FitsPair kvs

module _ (env : Env) where
  open env use {BufWriter, stored, pending, write_all, flush, write_all_ok, flush_ok}

  -- All that was accepted: what is in the file, and behind it what is still buffered.
  abbrev pub content : BufWriter → Bytes
  content w = stored w ++ pending w

  -- Where `m` succeeds it appends `bs`, and only if `P` holds.
  pub record Writes (P : Type 0) (bs : Bytes) (m : Write env (Unit {0})) : Type 0 where
    pub appends : (w : BufWriter) → (m w).0 ≡ ok tt → content (m w).1 ≡ content w ++ bs
    pub needs : (w : BufWriter) → (m w).0 ≡ ok tt → P

  pub Writes-all : (bs : Bytes) → Writes Unit bs (write_all bs)
  Writes-all bs = record { appends = write_all_ok bs; needs = λ w h. tt }

  pub Writes-uint : (n v : ℕ) → Writes Unit (to_be n v) (write_uint env n v)
  unfolding write_uint
  Writes-uint n v = Writes-all (to_be n v)

  Writes-nothing : Writes Unit [] (lift env (ok tt))
  unfolding lift
  Writes-nothing = record { appends = λ w h. sym (append-nil (content w)); needs = λ w h. tt }

  pub ok_of_bind :
      (m k : Write env (Unit {0})) (w : BufWriter)
      → ((◌>>◌ env m k) w).0 ≡ ok tt
      → ((m w).0 ≡ ok tt) × ((k (m w).1).0 ≡ ok tt) × ((k (m w).1).1 ≡ ((◌>>◌ env m k) w).1)
  unfolding ◌>>◌
  ok_of_bind m k w h = ground arith

  pub bind_of_ok :
      (m k : Write env (Unit {0})) (w : BufWriter)
      → (m w).0 ≡ ok tt
      → (k (m w).1).0 ≡ ok tt
      → ((◌>>◌ env m k) w).0 ≡ ok tt
  unfolding ◌>>◌
  bind_of_ok m k w h g = ground arith

  try_u16_bind :
      (n : ℕ) (f : ℕ → Write env (Unit {0})) (w : BufWriter)
      → (◌>>=◌ env (lift env (try_u16 n)) f w)
        ≡ elim (try_u16 n) [ ok a ↦ f a w | err e ↦ (err e, w) ]
  unfolding ◌>>=◌ lift
  try_u16_bind n f w = refl

  pub Writes->> :
      {P Q : Type 0} {as' bs : Bytes} {m k : Write env (Unit {0})}
      → Writes P as' m
      → Writes Q bs k
      → Writes (P × Q) (as' ++ bs) (◌>>◌ env m k)
  Writes->> {P} {Q} {as'} {bs} {m} {k} wm wk = record {
    appends = λ w h.
        let (hm, hk, e) = ok_of_bind m k w h in
        rw (← e) (
          wk.appends (m w).1 hk
          ∙ ap (λ c. c ++ bs) (wm.appends w hm)
          ∙ append_assoc (content w) as' bs);
    needs = λ w h. let (hm, hk, e) = ok_of_bind m k w h in (wm.needs w hm, wk.needs (m w).1 hk);
  }

  Writes-u16 :
      {P : Type 0} {bs : Bytes} (n : ℕ) (f : ℕ → Write env (Unit {0}))
      → Writes P bs (f n)
      → Writes ((n < 65536) × P) bs (◌>>=◌ env (lift env (try_u16 n)) f)
  unfolding try_u16
  Writes-u16 n f wf = record {
    appends = λ w. rw try_u16_bind (ground (arith, wf.appends w));
    needs = λ w. rw try_u16_bind (ground (arith, wf.needs w));
  }

  pub Writes-imp :
      {P Q : Type 0} {bs : Bytes} {m : Write env (Unit {0})}
      → (P → Q)
      → Writes P bs m
      → Writes Q bs m
  Writes-imp f wm = record { appends = wm.appends; needs = λ w h. f (wm.needs w h) }

  Writes-value : (v : Value) → Writes (FitsValue v) (value_bytes v) (append_value env v)
  unfolding value_bytes append_value
  Writes-value (set v) =
      Writes-imp (λ h. h.0) (Writes-u16 _ _ (Writes->> (Writes-uint 2 (length v)) (Writes-all v)))
  Writes-value delete = Writes-uint 2 0

  Writes-pair :
      (k : Key) (v : Value) → Writes (FitsPair (k, v)) (pair_bytes k v) (append_key_value env k v)
  unfolding pair_bytes append_key_value
  Writes-pair k v =
      Writes-imp (λ h. (h.0, h.1.1.1.1))
        (Writes-u16 _ _ (
          Writes->> (Writes-uint 2 (length k.user))
            (Writes->> (Writes-all k.user) (Writes->> (Writes-uint 8 k.seq) (Writes-value v)))))

  Writes-pairs :
      (kvs : List (Key × Value))
      → Writes (All FitsPair kvs) (pairs_bytes kvs) (append_pairs env kvs)
  unfolding pairs_bytes append_pairs
  Writes-pairs [] = Writes-nothing
  Writes-pairs ((k, v) ∷ kvs) = Writes->> (Writes-pair k v) (Writes-pairs kvs)

  pub Writes-cmd : (c : WalCmd) → Writes (Fits c) (encode_cmd c) (append_cmd env c)
  unfolding encode_cmd append_cmd append_tx_begin append_tx_commit append_op append_batch
  Writes-cmd (tx_begin t) = Writes-imp (λ h. tt) (Writes->> (Writes-uint 1 _) (Writes-uint 8 t))
  Writes-cmd (tx_commit t) = Writes-imp (λ h. tt) (Writes->> (Writes-uint 1 _) (Writes-uint 8 t))
  Writes-cmd (op t k v) =
      Writes-imp (λ h. h.1.1)
        (Writes->> (Writes-uint 1 _) (Writes->> (Writes-uint 8 t) (Writes-pair k v)))
  Writes-cmd (batch t kvs) =
      Writes-imp (λ h. (h.0, h.1.1.1.1))
        (Writes-u16 _ _ (
          Writes->> (Writes-uint 1 _) (
            Writes->> (Writes-uint 2 (length kvs))
              (Writes->> (Writes-uint 8 t) (Writes-pairs kvs)))))

  -- If an `append` returns without an error, then the command fits its record, the file holds what it
  -- held and what was buffered before the call, followed by the record, and nothing stays buffered.
  pub stored-append :
      (c : WalCmd) (w : BufWriter)
      → (append env c w).0 ≡ ok tt
      → Fits c
        × (stored (append env c w).1 ≡ (stored w ++ pending w) ++ encode_cmd c)
        × (pending (append env c w).1 ≡ [])
  unfolding append
  stored-append c w h =
      let (hm, hk, e) = ok_of_bind (append_cmd env c) flush w h in
      let (all, none_left) = flush_ok (append_cmd env c w).1 hk in
      ((Writes-cmd c).needs w hm, rw (← e) (all ∙ (Writes-cmd c).appends w hm), rw (← e) none_left)
