-- ===== src/Storage/Recovery.antt =====
-- Recovery: the log that writes leave behind is replayed to the table that the writes had built.
use lowdb.Prelude.{
  ℕ, ◌≡◌, refl, ap, sym, subst, ◌∙◌, some, List, [], ◌∷◌, ◌++◌, append_assoc, append-nil, All,
  All-append, arith,
}
use lowdb.Prelude.Bytes.{Bytes}
use lowdb.Common.Key.{Key}
use lowdb.Common.Value.{Value}
use lowdb.Common.Error.{ok}
use lowdb.Env.{Env}
use lowdb.Wal.{WalCmd, tx_begin, tx_commit, batch}
use lowdb.Wal.Writer.{append, append_batch_sync, append_cmd}
use lowdb.Wal.Writer.Encoding.{encode_cmd, stored-append}
use lowdb.Wal.Reader.RoundTrip.{Readable}
use lowdb.Memtable.SkipList.{Rng}
use lowdb.Memtable.Sorted.Merge.{insert_all}
use lowdb.Memtable.Table
use lowdb.Memtable.Table.{MemTable, put_all}
use lowdb.Memtable.Table.Reads
use lowdb.Memtable.Table.Reads.{iter-put_all, iter-new}
use lowdb.Storage.{State, set_batch, set_batches}
use lowdb.Storage.Restore.{Replay, Restored, restore_tables, restore_from, replay_log}
use lowdb.Storage.Restore.Log.{
  encode_cmds, encode_cmds-append, apply_cmds-append, replay_log-encode_cmds,
}
use lowdb.Storage.Restore.Committed.{
  Batch, commands_of, entries_of, replay-commands_of, insert_all-append, Tail, tail_commands,
  replay-tail_commands,
}

module _ (env : Env) where
  open env use {BufWriter, stored, pending}

  abbrev after_begin : ℕ → State env → BufWriter
  after_begin t s = (append env (tx_begin t) s.wal).1

  abbrev after_batch : ℕ → List (Key × Value) → State env → BufWriter
  after_batch t kvs s = (append_batch_sync env t kvs (after_begin t s)).1

  abbrev after_commit : ℕ → List (Key × Value) → State env → BufWriter
  after_commit t kvs s = (append env (tx_commit t) (after_batch t kvs s)).1

  set_batch_inv :
      (t : ℕ) (kvs : List (Key × Value)) (s : State env)
      → (set_batch env t kvs s).0 ≡ ok tt
      → ((append env (tx_begin t) s.wal).0 ≡ ok tt)
        × ((append_batch_sync env t kvs (after_begin t s)).0 ≡ ok tt)
        × ((append env (tx_commit t) (after_batch t kvs s)).0 ≡ ok tt)
        × ((set_batch env t kvs s).1
            ≡ record { wal = after_commit t kvs s; mem_table = put_all kvs s.mem_table })
  unfolding set_batch
  set_batch_inv t kvs s h = ground arith

  abbrev content : BufWriter → Bytes
  content w = stored w ++ pending w

  appended :
      (c : WalCmd) (w : BufWriter)
      → (append env c w).0 ≡ ok tt
      → content (append env c w).1 ≡ content w ++ encode_cmd c
  appended c w h =
      let (_, all, none_left) = stored-append env c w h in
      rw none_left (append-nil (stored (append env c w).1) ∙ all)

  batch_appended :
      (t : ℕ) (kvs : List (Key × Value)) (w : BufWriter)
      → (append_batch_sync env t kvs w).0 ≡ ok tt
      → content (append_batch_sync env t kvs w).1 ≡ content w ++ encode_cmd (batch t kvs)
  unfolding append_batch_sync append append_cmd
  batch_appended t kvs w h = unfold append append_cmd in appended (batch t kvs) w h

  -- What a run of writes is to leave: their records in the log, nothing buffered, and their entries in
  -- the memory table.
  pub record IsWritten (bs : List Batch) (s s' : State env) : Type 0 where
    pub logged : content s'.wal ≡ content s.wal ++ encode_cmds (commands_of bs)
    pub synced : pending s.wal ≡ [] → pending s'.wal ≡ []
    pub is_valid : Reads.IsValid s'.mem_table
    pub entries : Table.iter s'.mem_table ≡ insert_all (entries_of bs) (Table.iter s.mem_table)

  set_batch_logged :
      (t : ℕ) (kvs : List (Key × Value)) (s : State env)
      → (set_batch env t kvs s).0 ≡ ok tt
      → (content (set_batch env t kvs s).1.wal
          ≡ content s.wal
            ++ (encode_cmd (tx_begin t) ++ (encode_cmd (batch t kvs) ++ encode_cmd (tx_commit t))))
        × (pending (set_batch env t kvs s).1.wal ≡ [])
        × ((set_batch env t kvs s).1.mem_table ≡ put_all kvs s.mem_table)
  set_batch_logged t kvs s h =
      let (h1, h2, h3, e) = set_batch_inv t kvs s h in
      let (_, _, none_left) = stored-append env (tx_commit t) (after_batch t kvs s) h3 in
      rw e (
        appended (tx_commit t) (after_batch t kvs s) h3
            ∙ ap (λ c. c ++ encode_cmd (tx_commit t))
                (batch_appended t kvs (after_begin t s) h2
                  ∙ ap (λ c. c ++ encode_cmd (batch t kvs)) (appended (tx_begin t) s.wal h1))
            ∙ simp append_assoc,
        none_left,
        refl,
      )

  set_batches_inv :
      (t : ℕ) (kvs : List (Key × Value)) (bs : List Batch) (s : State env)
      → (set_batches env ((t, kvs) ∷ bs) s).0 ≡ ok tt
      → ((set_batch env t kvs s).0 ≡ ok tt)
        × ((set_batches env bs (set_batch env t kvs s).1).0 ≡ ok tt)
        × ((set_batches env ((t, kvs) ∷ bs) s).1 ≡ (set_batches env bs (set_batch env t kvs s).1).1)
  unfolding set_batches
  set_batches_inv t kvs bs s h = ground arith

  pub set_batches-IsWritten :
      (bs : List Batch) (s : State env)
      → Reads.IsValid s.mem_table
      → (set_batches env bs s).0 ≡ ok tt
      → IsWritten bs s (set_batches env bs s).1
  unfolding set_batches commands_of encode_cmds entries_of insert_all
  set_batches-IsWritten [] s v h = record {
    logged = sym (append-nil (content s.wal));
    synced = λ e. e;
    is_valid = v;
    entries = refl;
  }
  set_batches-IsWritten ((t, kvs) ∷ bs) s v h =
      let (h1, h2, e) = set_batches_inv t kvs bs s h in
      let (logged, none_left, table) = set_batch_logged t kvs s h1 in
      let (valid, iters) = iter-put_all kvs s.mem_table v in
      let s' = (set_batch env t kvs s).1 in
      let r = set_batches-IsWritten bs s' (rw table valid) h2 in
      subst (IsWritten ((t, kvs) ∷ bs) s) (sym e) (record {
        logged = r.logged ∙ ap (λ c. c ++ encode_cmds (commands_of bs)) logged ∙ simp append_assoc;
        synced = λ _. r.synced none_left;
        is_valid = r.is_valid;
        entries =
            r.entries
            ∙ ap (insert_all (entries_of bs)) (ap Table.iter table ∙ iters)
            ∙ sym (insert_all-append kvs (entries_of bs) (Table.iter s.mem_table));
      })

  -- Words in range, texts that are UTF-8 and not empty where they are values, and lengths that fit.
  abbrev pub IsReadable : Batch → Type 0
  IsReadable (t, kvs) = Readable env (batch t kvs)

  commands-Readable : (bs : List Batch) → All IsReadable bs → All (Readable env) (commands_of bs)
  unfolding commands_of
  commands-Readable [] h = tt
  commands-Readable ((t, kvs) ∷ bs) (h, hs) = (h.0, (h, (h.0, commands-Readable bs hs)))

  replay_log-tail :
      (rng : Rng) (bs : List Batch) (tail : Tail) (p : Replay)
      → All IsReadable bs
      → All (Readable env) (tail_commands tail)
      → Reads.IsValid p.table
      → p.txs ≡ []
      → (q : Replay) × (replay_log env rng
            (encode_cmds (commands_of bs) ++ encode_cmds (tail_commands tail))
            p
          ≡ ok q)
        × (Table.iter q.table ≡ insert_all (entries_of bs) (Table.iter p.table))
  replay_log-tail rng bs tail p hb ht v e =
      let (q, run, r) = replay-commands_of rng bs p v e in
      let (q', run', same) = replay-tail_commands rng tail q r.closed in
      let readable =
        All-append _ (commands_of bs) (tail_commands tail) (commands-Readable bs hb) ht in
      (
        q',
        rw (← encode_cmds-append (commands_of bs) (tail_commands tail)) (
            replay_log-encode_cmds env rng (commands_of bs ++ tail_commands tail) p readable
            ∙ apply_cmds-append rng (commands_of bs) (tail_commands tail) p q run
            ∙ run'),
        ap Table.iter same ∙ r.entries,
      )

  restore-one :
      (rng : Rng) (name unread : Bytes) (id : ℕ) (q : Replay)
      → env.parse_u64 name ≡ some id
      → replay_log env rng unread
          (record { table = Table.new id rng; txs = []; max_seq = 0; max_tx_id = 0 })
        ≡ ok q
      → restore_tables env rng (record { id = name; unread = unread } ∷ [])
        ≡ ok (record { tables = q.table ∷ []; max_seq = q.max_seq; max_tx_id = q.max_tx_id })
  unfolding restore_tables restore_from
  restore-one rng name unread id q named run = rw (restore_tables, restore_from, named, run)

  -- After batches were written to a new log and an empty memory table, each without an error, and
  -- after a crash that may leave the records of one more transaction without its commit behind them,
  -- `restore_tables` succeeds on that log. It gives one table, with exactly the entries of the memory
  -- table from before the crash. The batches hold words in range, keys and values that are UTF-8 and
  -- fit their length fields, and no empty values, and the log's name is a number.
  pub restore-set_batches :
      (rng : Rng) (bs : List Batch) (tail : Tail) (s : State env) (name : Bytes) (id : ℕ)
      → All IsReadable bs
      → All (Readable env) (tail_commands tail)
      → stored s.wal ≡ []
      → pending s.wal ≡ []
      → s.mem_table ≡ Table.new id rng
      → env.parse_u64 name ≡ some id
      → (set_batches env bs s).0 ≡ ok tt
      → (out : Restored) × (table : MemTable) × (restore_tables env rng (
            record {
              id = name;
              unread = stored (set_batches env bs s).1.wal ++ encode_cmds (tail_commands tail);
            }
            ∷ [])
          ≡ ok out)
        × (out.tables ≡ table ∷ [])
        × (Table.iter table ≡ Table.iter (set_batches env bs s).1.mem_table)
  restore-set_batches rng bs tail s name id hb ht empty synced fresh named h =
      let (new_valid, new_empty) = iter-new id rng in
      let w = set_batches-IsWritten bs s (rw fresh new_valid) h in
      let s' = (set_batches env bs s).1 in
      let blank : stored s.wal ++ pending s.wal ≡ [] = rw (empty, synced) in
      let log : stored s'.wal ≡ encode_cmds (commands_of bs) =
        sym (append-nil (stored s'.wal))
        ∙ ap (λ r. stored s'.wal ++ r) (sym (w.synced synced))
        ∙ w.logged
        ∙ ap (λ r. r ++ encode_cmds (commands_of bs)) blank in
      let (q, run, entries) =
        replay_log-tail rng bs tail
          (record { table = Table.new id rng; txs = []; max_seq = 0; max_tx_id = 0 }) hb ht
          new_valid refl in
      (
        record { tables = q.table ∷ []; max_seq = q.max_seq; max_tx_id = q.max_tx_id },
        q.table,
        restore-one rng name _ id q named (
            ap
              (λ r.
                replay_log env rng (r ++ encode_cmds (tail_commands tail))
                  (record { table = Table.new id rng; txs = []; max_seq = 0; max_tx_id = 0 }))
              log
            ∙ run),
        refl,
        entries ∙ ap (insert_all (entries_of bs)) (ap Table.iter (sym fresh)) ∙ sym w.entries,
      )
