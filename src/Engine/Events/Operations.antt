-- ===== src/Engine/Events/Operations.antt =====
-- The operations of a database (engine/src/lib.rs, transaction/src/lib.rs) are sequences of events.
use lowdb.Prelude.{
  ℕ, zero, suc, ◌≡◌, ◌≤◌, refl, ap, sym, ◌∙◌, ◌⊎◌, inl, inr, Bool, true, false, Bool-cases, Option,
  none, some, List, [], ◌∷◌, ◌++◌, ◌&&◌, not, length, if◌then◌else◌, arith,
}
use lowdb.Prelude.Bytes.{Bytes}
use lowdb.Common.Value.{Value}
use lowdb.Common.Error.{DbError, DbResult, ok, err}
use lowdb.Env.{Env}
use lowdb.Memtable.SkipList.{Rng}
use lowdb.Memtable.Table
use lowdb.Memtable.Table.{MemTable}
use lowdb.Storage.Levels.{
  Dir, Storage, force_freeze, freeze_if_full, freeze_active, flush_oldest, after_flush,
  flush_frozen,
}
use lowdb.Storage.Levels.Drain.{flush_frozen_empties}
use lowdb.Transaction.Oracle
use lowdb.Transaction.Oracle.{Oracle, next_tx_id}
use lowdb.Transaction.Session.{
  Transaction, new_transaction, new_snapshot, commit_frozen, commit_transaction, freeze, drop_at,
}
use lowdb.Engine.{Db, set, transaction, snapshot, flush}
use lowdb.Engine.Events.{Event, commits, begins, ends, numbers, freezes, flushes, apply, run, is_ok}

-- Freezing in the events of an operation.
abbrev pub freezes_if : Bool → List Event
freezes_if true = freezes ∷ []
freezes_if false = []

abbrev pub rounds : ℕ → List Event
rounds zero = []
rounds (suc n) = flushes ∷ rounds n

module _ (env : Env) (dir : Dir env) (rng : Rng) where
  -- The database of what `commit_frozen` returns.
  abbrev pub db_of : Oracle × Storage env → Db env
  db_of (o, s) = record { inner = s; oracle = o }

  -- A commit, and a freeze behind it if it succeeds and leaves a full table.
  abbrev pub write_events : ℕ → Option ℕ → List (Bytes × Value) → Db env → List Event
  write_events tx_id read_ts buffer db =
      let (r, (_, active)) =
        Oracle.commit env tx_id read_ts buffer db.oracle db.inner.state.active in
      commits tx_id read_ts buffer ∷ freezes_if (is_ok r && Table.is_full active.mem_table)

  -- Without a write, a commit of a transaction is the end of its snapshot.
  abbrev pub commit_events : Transaction → Db env → List Event
  commit_events tx db = elim tx.buffer [
    | [] ↦ ends tx.read_ts ∷ []
    | kv ∷ kvs ↦ write_events tx.tx_id (some tx.read_ts) (kv ∷ kvs) db ++ ends tx.read_ts ∷ []
  ]

  run-append :
      (es fs : List Event) (db : Db env)
      → run env dir rng (es ++ fs) db ≡ run env dir rng fs (run env dir rng es db)
  unfolding run
  run-append [] fs db = refl
  run-append (e ∷ es) fs db = run-append es fs (apply env dir rng e db)

  -- The layers behind a commit without the freeze.
  abbrev behind : ℕ → Option ℕ → List (Bytes × Value) → Db env → Storage env
  behind tx_id read_ts buffer db =
      let (_, (_, active)) =
        Oracle.commit env tx_id read_ts buffer db.oracle db.inner.state.active in
      record db.inner { state = record db.inner.state { active = active } }

  commit_frozen-behind :
      (tx_id : ℕ) (read_ts : Option ℕ) (buffer : List (Bytes × Value)) (db : Db env)
      → let (r, (o, active)) =
          Oracle.commit env tx_id read_ts buffer db.oracle db.inner.state.active in
        let s = behind tx_id read_ts buffer db in
        (commit_frozen env dir rng tx_id read_ts buffer db.oracle db.inner).1 ≡ (
          o,
          if is_ok r && Table.is_full active.mem_table then (force_freeze env dir rng s).1 else s,
        )
  unfolding commit_frozen freeze_if_full
  commit_frozen-behind tx_id read_ts buffer db = ground arith

  freezes_if-run :
      (b : Bool) (db : Db env)
      → run env dir rng (freezes_if b) db
        ≡ record db { inner = if b then (force_freeze env dir rng db.inner).1 else db.inner }
  unfolding run apply
  freezes_if-run true db = refl
  freezes_if-run false db = refl

  commit_frozen-run :
      (tx_id : ℕ) (read_ts : Option ℕ) (buffer : List (Bytes × Value)) (db : Db env)
      → db_of (commit_frozen env dir rng tx_id read_ts buffer db.oracle db.inner).1
        ≡ run env dir rng (write_events tx_id read_ts buffer db) db
  unfolding run apply
  commit_frozen-run tx_id read_ts buffer db =
      let (r, (o, active)) =
        Oracle.commit env tx_id read_ts buffer db.oracle db.inner.state.active in
      ap db_of (commit_frozen-behind tx_id read_ts buffer db)
      ∙ sym (
          freezes_if-run (is_ok r && Table.is_full active.mem_table)
            (db_of (o, behind tx_id read_ts buffer db)))

  freeze_active-run :
      (db : Db env)
      → record db { inner = (freeze_active env dir rng db.inner).1 }
        ≡ run env dir rng (freezes_if (not (Table.is_empty db.inner.state.active.mem_table))) db
  unfolding freeze_active
  freeze_active-run db = elim (Bool-cases (Table.is_empty db.inner.state.active.mem_table)) [
    | inl e ↦ rw (freeze_active, e) (sym (freezes_if-run false db))
    | inr e ↦ rw (freeze_active, e) (sym (freezes_if-run true db))
  ]

  -- Flushing is a number of rounds.
  abbrev IsRounds : ℕ → Storage env → Db env → Type 0
  IsRounds most inner db =
      (n : ℕ) × (n ≤ most) × (record db { inner = inner } ≡ run env dir rng (rounds n) db)

  flush_frozen-run :
      (fuel : ℕ) (db : Db env) → IsRounds fuel (flush_frozen env dir rng fuel db.inner).1 db
  unfolding flush_frozen run apply
  flush_frozen-run zero db = (0, omega arith, refl)
  flush_frozen-run (suc fuel) db =
      let (r, inner) = flush_oldest env dir rng db.inner in
      let (n, few, rest) = flush_frozen-run fuel (record db { inner = inner }) in after r n few rest
    where
      after :
          (r : DbResult Bool) (n : ℕ)
          → n ≤ fuel
          → (let inner = (flush_oldest env dir rng db.inner).1 in
              record db { inner = (flush_frozen env dir rng fuel inner).1 }
              ≡ run env dir rng (rounds n) (record db { inner = inner }))
          → let inner = (flush_oldest env dir rng db.inner).1 in
            IsRounds
              (suc fuel)
              (after_flush env dir rng r inner (flush_frozen env dir rng fuel inner)).1
              db
      after (err e) n few rest = unfold after_flush in (1, omega arith, refl)
      after (ok true) n few rest = unfold after_flush in (suc n, omega arith, rest)
      after (ok false) n few rest = unfold after_flush in (1, omega arith, refl)

  flush_behind :
      (db : Db env)
      → let (r, inner) = freeze_active env dir rng db.inner in
        let rest = flush_frozen env dir rng (suc (length inner.state.frozen)) inner in
        flush env dir rng db ≡ (elim r [
          | err e ↦ (err e, record db { inner = inner })
          | ok _ ↦ (rest.0, record db { inner = rest.1 })
        ])
  unfolding flush freeze
  flush_behind db = ground arith

  -- What `flush` does behind its freeze.
  abbrev pub Flushed : DbResult (Unit {0}) × Db env → Db env → Type 0
  Flushed result db =
      (n : ℕ) × (n ≤ suc (length db.inner.state.frozen))
      × (result.1 ≡ run env dir rng (rounds n) db)
      × ((result.1.inner.state.frozen ≡ []) ⊎ ((e : DbError) × (result.0 ≡ err e)))

  ended :
      (r : DbResult (Unit {0})) (mts : List MemTable)
      → (r ≡ ok tt → mts ≡ [])
      → (mts ≡ []) ⊎ ((e : DbError) × (r ≡ err e))
  ended (ok _) mts h = inl (h refl)
  ended (err e) mts h = inr (e, refl)

  Flushed-behind :
      (r : DbResult (Unit {0})) (db : Db env)
      → let rest = flush_frozen env dir rng (suc (length db.inner.state.frozen)) db.inner in
        Flushed (elim r [ err e ↦ (err e, db) | ok _ ↦ (rest.0, record db { inner = rest.1 }) ]) db
  unfolding run
  Flushed-behind (err e) db = (0, omega arith, refl, inr (e, refl))
  Flushed-behind (ok _) db =
      let fuel = suc (length db.inner.state.frozen) in
      let (n, few, same) = flush_frozen-run fuel db in
      let rest = flush_frozen env dir rng fuel db.inner in
      (
        n,
        few,
        same,
        ended rest.0 rest.1.state.frozen
            (flush_frozen_empties env dir rng fuel db.inner (omega arith)),
      )

  flush-run :
      (db : Db env)
      → let frozen = freezes_if (not (Table.is_empty db.inner.state.active.mem_table)) in
        Flushed (flush env dir rng db) (run env dir rng frozen db)
  flush-run db =
      let (r, inner) = freeze_active env dir rng db.inner in
      rw (← freeze_active-run db, flush_behind db) (Flushed-behind r (record db { inner = inner }))

  commit_transaction-run :
      (tx : Transaction) (db : Db env)
      → db_of (commit_transaction env dir rng tx db.oracle db.inner).1
        ≡ run env dir rng (commit_events tx db) db
  unfolding commit_transaction run apply drop_at
  commit_transaction-run tx db = by_buffer tx.buffer refl
    where
      by_buffer :
          (b : List (Bytes × Value))
          → tx.buffer ≡ b
          → db_of (commit_transaction env dir rng tx db.oracle db.inner).1
            ≡ run env dir rng (commit_events tx db) db
      by_buffer [] e = rw (commit_transaction, e) refl
      by_buffer (kv ∷ kvs) e =
          let written = commit_frozen-run tx.tx_id (some tx.read_ts) (kv ∷ kvs) db in
          let last =
            run-append (write_events tx.tx_id (some tx.read_ts) (kv ∷ kvs) db)
              (ends tx.read_ts ∷ []) db in
          rw (commit_transaction, e) (ap (apply env dir rng (ends tx.read_ts)) written ∙ sym last)

  -- Every operation of a database does just these events, in this order. `set` draws a number and commits
  -- without a snapshot; a commit freezes where it succeeds and leaves a full table. `transaction` begins a
  -- snapshot at what is visible and draws a number, and `snapshot` begins one. `flush` freezes a table that is
  -- not empty, and then does rounds of flushing, at most one more than there are frozen tables, behind which
  -- no frozen table is left or `flush` returns an error. A commit of a transaction with writes commits at its
  -- snapshot and ends it; without writes it ends the snapshot; and a drop ends it.
  pub operations-run :
      (db : Db env) (key value : Bytes) (tx : Transaction) (read_ts : ℕ)
      → ((set env dir rng key value db).1
          ≡ run env dir rng
              (numbers
                ∷ write_events db.oracle.tx_id none
                    ((key, Value.set value) ∷ [])
                    (apply env dir rng numbers db))
              db)
        × ((transaction env db).1 ≡ run env dir rng (begins ∷ numbers ∷ []) db)
        × ((transaction env db).0
            ≡ record { tx_id = db.oracle.tx_id; read_ts = db.oracle.visible; buffer = [] })
        × (snapshot env db ≡ (db.oracle.visible, run env dir rng (begins ∷ []) db))
        × Flushed
            (flush env dir rng db)
            (run env dir rng (freezes_if (not (Table.is_empty db.inner.state.active.mem_table))) db)
        × (db_of (commit_transaction env dir rng tx db.oracle db.inner).1
            ≡ run env dir rng (commit_events tx db) db)
        × (record db { oracle = drop_at read_ts db.oracle }
            ≡ run env dir rng (ends read_ts ∷ []) db)
  unfolding set transaction new_transaction snapshot new_snapshot run apply drop_at Oracle.begin
      next_tx_id
  operations-run db key value tx read_ts = (
    commit_frozen-run db.oracle.tx_id none ((key, Value.set value) ∷ [])
        (apply env dir rng numbers db),
    refl,
    refl,
    refl,
    flush-run db,
    commit_transaction-run tx db,
    refl,
  )
