-- ===== src/Storage/Restore/Committed.antt =====
-- What replaying makes of a transaction that was committed, and of one that was not.
use lowdb.Prelude.{ℕ, max, ◌≡◌, refl, ap, sym, ◌∙◌, some, List, [], ◌∷◌, ◌++◌, arith}
use lowdb.Prelude.Assoc
use lowdb.Common.Key.{Key}
use lowdb.Common.Value.{Value}
use lowdb.Common.Error.{ok}
use lowdb.Wal.{WalCmd, tx_begin, tx_commit, batch}
use lowdb.Memtable.SkipList.{Rng}
use lowdb.Memtable.Sorted.{insert_entry}
use lowdb.Memtable.Sorted.Merge.{insert_all, insert_all-sorted}
use lowdb.Memtable.Table
use lowdb.Memtable.Table.{MemTable, put_all}
use lowdb.Memtable.Table.Reads
use lowdb.Memtable.Table.Reads.{iter-put_all, iter-new}
use lowdb.Storage.Restore.{Replay, apply_cmd, max_seq_of}
use lowdb.Storage.Restore.Log.{apply_cmds}

abbrev pub Batch : Type 0
Batch = ℕ × List (Key × Value)

-- The commands that `set_batch` appends.
unfoldable pub commands_of : List Batch → List WalCmd
commands_of [] = []
commands_of ((t, kvs) ∷ bs) = tx_begin t ∷ batch t kvs ∷ tx_commit t ∷ commands_of bs

-- The replay of a transaction between its begin and its commit.
abbrev pub with_tx : Rng → ℕ → List (Key × Value) → Replay → Replay
with_tx rng t kvs p = record {
  table = p.table;
  txs = (t, put_all kvs (Table.new 0 rng)) ∷ [];
  max_seq = max_seq_of kvs p.max_seq;
  max_tx_id = max p.max_tx_id t;
}

get-one {ℓ} : {A : Type ℓ} (t : ℕ) (x : A) → Assoc.get t ((t, x) ∷ []) ≡ some x
unfolding Assoc.get
get-one t x = ground arith

insert-one {ℓ} : {A : Type ℓ} (t : ℕ) (x y : A) → Assoc.insert t y ((t, x) ∷ []) ≡ (t, y) ∷ []
unfolding Assoc.insert
insert-one t x y = ground arith

remove-one {ℓ} : {A : Type ℓ} (t : ℕ) (x : A) → Assoc.remove t ((t, x) ∷ []) ≡ []
unfolding Assoc.remove
remove-one t x = ground arith

-- The replay after a committed transaction.
abbrev pub committed : Rng → ℕ → List (Key × Value) → Replay → Replay
committed rng t kvs p = record {
  table = put_all (Table.iter (put_all kvs (Table.new 0 rng))) p.table;
  txs = [];
  max_seq = max_seq_of kvs p.max_seq;
  max_tx_id = max p.max_tx_id t;
}

module _ (rng : Rng) (t : ℕ) (kvs : List (Key × Value)) (p : Replay) where
  abbrev pub begun : Replay
  begun = record {
    table = p.table;
    txs = (t, Table.new 0 rng) ∷ [];
    max_seq = p.max_seq;
    max_tx_id = max p.max_tx_id t;
  }

  step_begin : p.txs ≡ [] → apply_cmd rng (tx_begin t) p ≡ ok begun
  unfolding apply_cmd Assoc.get Assoc.insert
  step_begin e =
      rw (apply_cmd, e)
        (ap
          (λ (xs : List (ℕ × MemTable)).
            ok (record begun { txs = Assoc.insert t (Table.new 0 rng) xs }))
          e)

  step_batch : apply_cmd rng (batch t kvs) begun ≡ ok (with_tx rng t kvs p)
  unfolding apply_cmd
  step_batch = rw (apply_cmd, get-one t (Table.new 0 rng), insert-one t (Table.new 0 rng))

  step_commit : apply_cmd rng (tx_commit t) (with_tx rng t kvs p) ≡ ok (committed rng t kvs p)
  unfolding apply_cmd
  step_commit = rw (
    apply_cmd,
    get-one t (put_all kvs (Table.new 0 rng)),
    remove-one t (put_all kvs (Table.new 0 rng)),
  )

  pub apply-begun : p.txs ≡ [] → apply_cmds rng (tx_begin t ∷ []) p ≡ ok begun
  unfolding apply_cmds
  apply-begun e = rw (step_begin e)

  pub apply-open :
      p.txs ≡ [] → apply_cmds rng (tx_begin t ∷ batch t kvs ∷ []) p ≡ ok (with_tx rng t kvs p)
  unfolding apply_cmds
  apply-open e = rw (step_begin e, step_batch)

  pub apply-committed :
      (cs : List WalCmd)
      → p.txs ≡ []
      → apply_cmds rng (tx_begin t ∷ batch t kvs ∷ tx_commit t ∷ cs) p
        ≡ apply_cmds rng cs (committed rng t kvs p)
  unfolding apply_cmds
  apply-committed cs e = rw (step_begin e, step_batch, step_commit)

-- All entries of some batches, in turn.
unfoldable pub entries_of : List Batch → List (Key × Value)
entries_of [] = []
entries_of ((t, kvs) ∷ bs) = kvs ++ entries_of bs

-- The entries of committed batches arrive in the table, and no transaction stays open.
pub record IsReplayed (bs : List Batch) (p q : Replay) : Type 0 where
  pub is_valid : Reads.IsValid q.table
  pub entries : Table.iter q.table ≡ insert_all (entries_of bs) (Table.iter p.table)
  pub closed : q.txs ≡ []
  pub seqs : q.max_seq ≡ max_seq_of (entries_of bs) p.max_seq

pub insert_all-append :
    (as' bs es : List (Key × Value)) → insert_all (as' ++ bs) es ≡ insert_all bs (insert_all as' es)
unfolding insert_all
insert_all-append [] bs es = refl
insert_all-append ((k, v) ∷ as') bs es = insert_all-append as' bs (insert_entry k v es)

max_seq_of-append :
    (as' bs : List (Key × Value)) (m : ℕ)
    → max_seq_of (as' ++ bs) m ≡ max_seq_of bs (max_seq_of as' m)
unfolding max_seq_of
max_seq_of-append [] bs m = refl
max_seq_of-append ((k, v) ∷ as') bs m = max_seq_of-append as' bs (max m k.seq)

-- Sorting a transaction's entries in a table of its own first makes no difference.
committed-entries :
    (rng : Rng) (t : ℕ) (kvs : List (Key × Value)) (p : Replay)
    → Reads.IsValid p.table
    → Reads.IsValid (committed rng t kvs p).table
      × (Table.iter (committed rng t kvs p).table ≡ insert_all kvs (Table.iter p.table))
unfolding insert_all
committed-entries rng t kvs p v =
    let (fresh, none_yet) = iter-new 0 rng in
    let (_, own) = iter-put_all kvs (Table.new 0 rng) fresh in
    let (v', e) = iter-put_all (Table.iter (put_all kvs (Table.new 0 rng))) p.table v in
    (
      v',
      e
          ∙ ap (λ es. insert_all es (Table.iter p.table)) (own ∙ ap (insert_all kvs) none_yet)
          ∙ insert_all-sorted kvs [] (Table.iter p.table) tt,
    )

-- Replaying what the batches of successful writes left in a log succeeds, and puts exactly their
-- entries into the table.
pub replay-commands_of :
    (rng : Rng) (bs : List Batch) (p : Replay)
    → Reads.IsValid p.table
    → p.txs ≡ []
    → (q : Replay) × (apply_cmds rng (commands_of bs) p ≡ ok q) × IsReplayed bs p q
unfolding commands_of entries_of apply_cmds insert_all max_seq_of
replay-commands_of rng [] p v e =
    (p, refl, record { is_valid = v; entries = refl; closed = e; seqs = refl })
replay-commands_of rng ((t, kvs) ∷ bs) p v e =
    let (v', here) = committed-entries rng t kvs p v in
    let (q, run, r) = replay-commands_of rng bs (committed rng t kvs p) v' refl in
    (
      q,
      apply-committed rng t kvs p (commands_of bs) e ∙ run,
      record {
        is_valid = r.is_valid;
        entries =
            r.entries
            ∙ ap (insert_all (entries_of bs)) here
            ∙ sym (insert_all-append kvs (entries_of bs) (Table.iter p.table));
        closed = r.closed;
        seqs = r.seqs ∙ sym (max_seq_of-append kvs (entries_of bs) p.max_seq);
      },
    )

-- What a crash between two records leaves of a transaction that did not commit.
pub data Tail : Type 0 where
  nothing : Tail
  begun_only : ℕ → Tail
  uncommitted : ℕ → List (Key × Value) → Tail

unfoldable pub tail_commands : Tail → List WalCmd
tail_commands nothing = []
tail_commands (begun_only t) = tx_begin t ∷ []
tail_commands (uncommitted t kvs) = tx_begin t ∷ batch t kvs ∷ []

-- A transaction without its commit does not reach the table.
pub replay-tail_commands :
    (rng : Rng) (tail : Tail) (p : Replay)
    → p.txs ≡ []
    → (q : Replay) × (apply_cmds rng (tail_commands tail) p ≡ ok q) × (q.table ≡ p.table)
unfolding tail_commands apply_cmds
replay-tail_commands rng nothing p e = (p, refl, refl)
replay-tail_commands rng (begun_only t) p e = (begun rng t [] p, apply-begun rng t [] p e, refl)
replay-tail_commands rng (uncommitted t kvs) p e =
    (with_tx rng t kvs p, apply-open rng t kvs p e, refl)
