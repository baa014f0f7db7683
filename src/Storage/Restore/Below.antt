-- ===== src/Storage/Restore/Below.antt =====
-- The tables that a recovery gives are well formed, and their versions are not above the number it returns.
use lowdb.Prelude.{
  ℕ, zero, suc, ◌+◌, ◌≤◌, ◌<◌, ◌≡◌, refl, subst, max, inl, inr, Option, Option-cases, none, some,
  List, [], ◌∷◌, ◌++◌, All, All-imp, length, arith, ◌==◌, Bool-cases,
}
use lowdb.Prelude.Assoc
use lowdb.Prelude.Bytes.{Bytes}
use lowdb.Common.Key.{Key}
use lowdb.Common.Value.{Value}
use lowdb.Common.Error.{DbResult, ok, err, bind_inv}
use lowdb.Env.{Env}
use lowdb.Wal.{WalCmd, tx_begin, tx_commit, op, batch}
use lowdb.Wal.Reader.{next}
use lowdb.Memtable.SkipList.{Rng}
use lowdb.Memtable.Table
use lowdb.Memtable.Table.{MemTable, put, put_all}
use lowdb.Memtable.Table.Below.{IsBelow, IsBelow-up, AllBelow-up, new-IsBelow, put_all-Below}
use lowdb.Memtable.Sorted.{All-insert_entry}
use lowdb.Memtable.Table.Reads.{iter-put}
use lowdb.Storage.Restore.Fuel.{replay_log_enough}
use lowdb.Storage.Restore.{
  WalReader, Restored, Replay, max_seq_of, apply_cmd, replay, replay_log, restore_from,
  restore_tables,
}

get-All {ℓ} :
    {A : Type ℓ} (P : A → Type 0) (k : ℕ) (xs : List (ℕ × A)) (a : A)
    → All (λ (x : ℕ × A). P x.1) xs
    → Assoc.get k xs ≡ some a
    → P a
unfolding Assoc.get
get-All P k [] a h e = absurd (cc)
get-All P k ((j, x) ∷ xs) a (h, hs) e = elim (Bool-cases (j == k)) [
  | inl same ↦ let here : x ≡ a = ground arith in rw (← here) h
  | inr other ↦ get-All P k xs a hs (ground arith)
]

insert-All {ℓ} :
    {A : Type ℓ} (P : A → Type 0) (k : ℕ) (a : A) (xs : List (ℕ × A))
    → P a
    → All (λ (x : ℕ × A). P x.1) xs
    → All (λ (x : ℕ × A). P x.1) (Assoc.insert k a xs)
unfolding Assoc.insert
insert-All P k a [] p h = (p, tt)
insert-All P k a ((j, x) ∷ xs) p (h, hs) = elim (Bool-cases (j == k)) [
  | inl same ↦ rw (Assoc.insert, same) (p, hs)
  | inr other ↦ rw (Assoc.insert, other) (h, insert-All P k a xs p hs)
]

remove-All {ℓ} :
    {A : Type ℓ} (P : A → Type 0) (k : ℕ) (xs : List (ℕ × A))
    → All (λ (x : ℕ × A). P x.1) xs
    → All (λ (x : ℕ × A). P x.1) (Assoc.remove k xs)
unfolding Assoc.remove
remove-All P k [] h = tt
remove-All P k ((j, x) ∷ xs) (h, hs) = elim (Bool-cases (j == k)) [
  | inl same ↦ rw (Assoc.remove, same) (remove-All P k xs hs)
  | inr other ↦ rw (Assoc.remove, other) (h, remove-All P k xs hs)
]

put-Below :
    (n : ℕ) (key : Key) (value : Value) (t : MemTable)
    → key.seq < n
    → IsBelow n t
    → IsBelow n (put key value t)
put-Below n key value t lt (valid, b) =
    let (valid', e) = iter-put t key value valid in
    (
      valid',
      rw e (All-insert_entry (λ (f : Key × Value). f.0.seq < n) key value (Table.iter t) lt b),
    )

max_seq_of_bound :
    (kvs : List (Key × Value)) (m : ℕ)
    → (m ≤ max_seq_of kvs m) × All (λ (e : Key × Value). e.0.seq < max_seq_of kvs m + 1) kvs
unfolding max_seq_of
max_seq_of_bound [] m = (omega arith, tt)
max_seq_of_bound ((k, v) ∷ kvs) m =
    let (le, all) = max_seq_of_bound kvs (max m k.seq) in
    (omega (arith, le), (omega (arith, le), all))

-- The tables of a replay are below the number behind its highest.
abbrev pub ReplayBelow : Replay → Type 0
ReplayBelow p =
    IsBelow (p.max_seq + 1) p.table × All (λ (x : ℕ × MemTable). IsBelow (p.max_seq + 1) x.1) p.txs

-- A replay that has gone on from another.
abbrev Grows : Replay → Replay → Type 0
Grows p q = (p.max_seq ≤ q.max_seq) × ReplayBelow q

-- A table of a transaction in a replay takes entries up to a new highest number.
values-Grows :
    (p : Replay) (t m : ℕ) (x x' : MemTable)
    → p.max_seq ≤ m
    → ReplayBelow p
    → IsBelow (m + 1) x'
    → Grows p (record p { max_seq = m; txs = Assoc.insert t x' p.txs })
values-Grows p t m x x' le (h, hs) b =
    let up = All-imp _ _ (λ y c. IsBelow-up (p.max_seq + 1) (m + 1) y.1 (omega arith) c) p.txs hs in
    (
      le,
      (
        IsBelow-up (p.max_seq + 1) (m + 1) p.table (omega arith) h,
        insert-All (IsBelow (m + 1)) t x' p.txs b up,
      ),
    )

apply_cmd-Below :
    (rng : Rng) (cmd : WalCmd) (p q : Replay)
    → apply_cmd rng cmd p ≡ ok q
    → ReplayBelow p
    → Grows p q
unfolding apply_cmd
apply_cmd-Below rng (tx_begin t) p q e (h, hs) = elim (Option-cases (Assoc.get t p.txs)) [
  | inl new ↦
      let next : Replay = record p {
        max_tx_id = max p.max_tx_id t;
        txs = Assoc.insert t (Table.new 0 rng) p.txs;
      } in
      let here : next ≡ q = ground (arith, e, new) in
      subst (Grows p) here (
        omega arith,
        (
          h,
          insert-All (IsBelow (p.max_seq + 1)) t (Table.new 0 rng) p.txs
              (new-IsBelow (p.max_seq + 1) 0 rng) hs,
        ),
      )
  | inr (x, known) ↦ absurd (ground arith)
]
apply_cmd-Below rng (tx_commit t) p q e (h, hs) = elim (Option-cases (Assoc.get t p.txs)) [
  | inl new ↦ absurd (ground arith)
  | inr (x, known) ↦
      let next : Replay = record p {
        txs = Assoc.remove t p.txs;
        table = put_all (Table.iter x) p.table;
      } in
      let here : next ≡ q = ground (arith, e, known) in
      let (_, below) = get-All (IsBelow (p.max_seq + 1)) t p.txs x hs known in
      subst (Grows p) here (
        omega arith,
        (
          put_all-Below (p.max_seq + 1) (Table.iter x) p.table below h,
          remove-All (IsBelow (p.max_seq + 1)) t p.txs hs,
        ),
      )
]
apply_cmd-Below rng (op t key value) p q e (h, hs) = elim (Option-cases (Assoc.get t p.txs)) [
  | inl new ↦
      let here : p ≡ q = ground (arith, e, new) in subst (Grows p) here (omega arith, (h, hs))
  | inr (x, known) ↦
      let m = max p.max_seq key.seq in
      let next : Replay = record p { max_seq = m; txs = Assoc.insert t (put key value x) p.txs } in
      let here : next ≡ q = ground (arith, e, known) in
      let before = get-All (IsBelow (p.max_seq + 1)) t p.txs x hs known in
      let up = IsBelow-up (p.max_seq + 1) (m + 1) x (omega arith) before in
      subst (Grows p) here (
        values-Grows p t m x (put key value x) (omega arith) (h, hs)
          (put-Below (m + 1) key value x (omega arith) up))
]
apply_cmd-Below rng (batch t kvs) p q e (h, hs) = elim (Option-cases (Assoc.get t p.txs)) [
  | inl new ↦
      let here : p ≡ q = ground (arith, e, new) in subst (Grows p) here (omega arith, (h, hs))
  | inr (x, known) ↦
      let m = max_seq_of kvs p.max_seq in
      let (le, bound) = max_seq_of_bound kvs p.max_seq in
      let next : Replay = record p { max_seq = m; txs = Assoc.insert t (put_all kvs x) p.txs } in
      let here : next ≡ q = ground (arith, e, known) in
      let before = get-All (IsBelow (p.max_seq + 1)) t p.txs x hs known in
      let up = IsBelow-up (p.max_seq + 1) (m + 1) x (omega (arith, le)) before in
      subst (Grows p) here
        (values-Grows p t m x (put_all kvs x) le (h, hs) (put_all-Below (m + 1) kvs x bound up))
]

All-last :
    (P : MemTable → Type 0) (ts : List MemTable) (t : MemTable)
    → All P ts
    → P t
    → All P (ts ++ t ∷ [])
All-last P [] t h p = (p, tt)
All-last P (x ∷ ts) t (h, hs) p = (h, All-last P ts t hs p)

module _ (env : Env) (rng : Rng) where
  -- what holds of the rounds that are left
  abbrev Later : ℕ → Replay → Type 0
  Later fuel q =
      (r : Bytes) (p : Replay) → replay env rng fuel r p ≡ some (ok q) → ReplayBelow p → Grows p q

  replay-Below :
      (fuel : ℕ) (r : Bytes) (p q : Replay)
      → replay env rng fuel r p ≡ some (ok q)
      → ReplayBelow p
      → Grows p q
  unfolding replay
  replay-Below zero r p q e b = absurd (cc)
  replay-Below (suc fuel) r p q e b = on_next (next env r) (λ r' p'. replay-Below fuel r' p' q) e
    where
      on_applied :
          (c : WalCmd) (r' : Bytes) (x : DbResult Replay)
          → apply_cmd rng c p ≡ x
          → Later fuel q
          → (elim x [ err y ↦ some (err y) | ok p' ↦ replay env rng fuel r' p' ]) ≡ some (ok q)
          → Grows p q
      on_applied c r' (err y) applied later e = absurd (cc)
      on_applied c r' (ok p') applied later e =
          let (le, b') = apply_cmd-Below rng c p p' applied b in
          let (le', b'') = later r' p' e b' in (omega (arith, le, le'), b'')

      on_next :
          (x : DbResult (Option WalCmd × Bytes))
          → Later fuel q
          → (elim x [
            | err y ↦ some (err y)
            | ok step ↦ elim step.0 [
              | none ↦ some (ok p)
              | some c ↦ elim (apply_cmd rng c p) [
                | err y ↦ some (err y)
                | ok p' ↦ replay env rng fuel step.1 p'
              ]
            ]
          ])
            ≡ some (ok q)
          → Grows p q
      on_next (err y) later e = absurd (cc)
      on_next (ok (none, r')) later e =
          let here : p ≡ q = cc in subst (Grows p) here (omega arith, b)
      on_next (ok (some c, r')) later e = on_applied c r' (apply_cmd rng c p) refl later e

  restore_from-Below :
      (wals : List WalReader) (out done : Restored)
      → restore_from env rng wals out ≡ ok done
      → All (IsBelow (out.max_seq + 1)) out.tables
      → All (IsBelow (done.max_seq + 1)) done.tables
  unfolding restore_from
  restore_from-Below [] out done e h =
      let here : out ≡ done = ground (arith, e) in
      subst (λ (r : Restored). All (IsBelow (r.max_seq + 1)) r.tables) here h
  restore_from-Below (wal ∷ wals) out done e h = elim (Option-cases (env.parse_u64 wal.id)) [
    | inl bad ↦ absurd (ground arith)
    | inr (id, parsed) ↦
        let start : Replay = record {
          table = Table.new id rng;
          txs = [];
          max_seq = out.max_seq;
          max_tx_id = out.max_tx_id;
        } in
        let (p, replayed, rest) =
          bind_inv (replay_log env rng wal.unread start)
            (λ (p : Replay). restore_from env rng wals (record {
              tables = out.tables ++ p.table ∷ [];
              max_seq = p.max_seq;
              max_tx_id = p.max_tx_id;
            }))
            done (rw (restore_from, parsed) at e) in
        let ended = replay_log_enough env rng (suc (length wal.unread)) wal.unread start in
        let (le, (table, _)) =
          replay-Below (suc (length wal.unread)) wal.unread start p
            (rw replayed at (ended (omega arith))) (new-IsBelow (out.max_seq + 1) id rng, tt) in
        restore_from-Below wals _ done rest (
          All-last (IsBelow (p.max_seq + 1)) out.tables p.table
            (AllBelow-up (out.max_seq + 1) (p.max_seq + 1) out.tables (omega (arith, le)) h) table)
  ]

  -- Recovery from logs gives well-formed tables of versions up to the highest number that it returns.
  pub restore_tables-Below :
      (wals : List WalReader) (restored : Restored)
      → restore_tables env rng wals ≡ ok restored
      → All (IsBelow (restored.max_seq + 1)) restored.tables
  unfolding restore_tables
  restore_tables-Below wals restored e = restore_from-Below wals _ restored e tt
