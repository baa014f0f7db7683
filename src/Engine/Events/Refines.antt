-- ===== src/Engine/Events/Refines.antt =====
-- A database refines the abstract store of versions.
use lowdb.Prelude.{
  ℕ, ◌≤◌, ◌≡◌, refl, ap, sym, ◌∙◌, Bool, true, false, Bool-cases, leb, Option, none, some,
  Option-cases, List, [], ◌∷◌, ◌&&◌, not, if◌then◌else◌, inl, inr,
}
use lowdb.Prelude.Bytes.{Bytes}
use lowdb.Common.Value.{Value, set, delete}
use lowdb.Common.Error.{DbResult}
use lowdb.Env.{Env}
use lowdb.Memtable.SkipList.{Rng}
use lowdb.Memtable.Sorted.{lookup_entry}
use lowdb.Memtable.Table
use lowdb.Memtable.Table.{MemTable, put_all}
use lowdb.Memtable.Table.Below.{IsBelow}
use lowdb.Memtable.Table.Reads.{says, get_snap_lem, iter-put_all}
use lowdb.Storage.{State}
use lowdb.Storage.Levels.{Dir, Layers, get_snap, split_last, flush_oldest}
use lowdb.Storage.Levels.Placed.{split_last-some}
use lowdb.Storage.Levels.Freeze.{get_snap-force_freeze}
use lowdb.Storage.Levels.Flush.{get_snap-flush_oldest}
use lowdb.Transaction.Oracle
use lowdb.Transaction.Oracle.{Oracle, conflicts, versions, next_tx_id}
use lowdb.Transaction.Commits.{Commits, written, over, answer, read, lookup_entry-commit}
use lowdb.Engine.{Db}
use lowdb.Engine.Events.{
  Event, commits, begins, ends, numbers, freezes, flushes, apply, run, note, notes, enters, Allowed,
  AllAllowed,
}
use lowdb.Engine.Events.Sound.{IsSound, commit_table, apply-IsSound}

-- A read of the memory table behind the writes of a commit.
pub get_snap-put_all :
    (n : ℕ) (kvs : List (Bytes × Value)) (t : MemTable) (key : Bytes) (ts : ℕ)
    → IsBelow n t
    → Table.get_snap (put_all (versions n kvs) t) key ts ≡ (
        if leb n ts
        then over (written key kvs) (Table.get_snap t key ts)
        else Table.get_snap t key ts)
get_snap-put_all n kvs t key ts (valid, below) =
    let (valid', e) = iter-put_all (versions n kvs) t valid in
    let before : says (lookup_entry key ts (Table.iter t)) ≡ Table.get_snap t key ts =
      sym (get_snap_lem t key ts valid) in
    let after = lookup_entry-commit key ts n kvs (Table.iter t) below in
    get_snap_lem (put_all (versions n kvs) t) key ts valid' ∙ rw (e, ← before) after

module _ (env : Env) where
  -- A base: what a store answers at each key and snapshot.
  abbrev Base : Type 0
  Base = Bytes → ℕ → DbResult (Option Bytes)

  -- Every read at or above `low` is that of the commits on top of the base.
  abbrev pub Refines : ℕ → Base → Commits → Layers env → Type 0
  Refines low base h s =
      (key : Bytes) (ts : ℕ) → low ≤ ts → get_snap env s key ts ≡ read h key ts (base key ts)

  -- The layers read by the answer of the active table.
  get_snap-over :
      (s : Layers env) (a : State env) (key : Bytes) (ts : ℕ) (w : Option Value)
      → Table.get_snap a.mem_table key ts ≡ over w (Table.get_snap s.active.mem_table key ts)
      → get_snap env (record s { active = a }) key ts ≡ answer w (get_snap env s key ts)
  unfolding get_snap
  get_snap-over s a key ts none e = rw (get_snap, e) refl
  get_snap-over s a key ts (some (set v)) e = rw (get_snap, e) refl
  get_snap-over s a key ts (some delete) e = rw (get_snap, e) refl

  -- The layers with the active table of a commit, whose writes entered or not.
  entered-Refines :
      (low n : ℕ) (b : Bool) (kvs : List (Bytes × Value)) (base : Base) (h : Commits)
      (s : Layers env) (a : State env)
      → IsBelow n s.active.mem_table
      → a.mem_table
        ≡ (if b then put_all (versions n kvs) s.active.mem_table else s.active.mem_table)
      → Refines low base h s
      → Refines low base (if b then (n, kvs) ∷ h else h) (record s { active = a })
  unfolding read
  entered-Refines low n true kvs base h s a below e r key ts le =
      let table =
        ap (λ t. Table.get_snap t key ts) e
        ∙ get_snap-put_all n kvs s.active.mem_table key ts below in
      elim (Bool-cases (leb n ts)) [
        | inl now ↦
            rw (read, now)
              (get_snap-over s a key ts (written key kvs) (table ∙ rw now refl)
                ∙ ap (answer (written key kvs)) (r key ts le))
        | inr later ↦
            rw (read, later) (get_snap-over s a key ts none (table ∙ rw later refl) ∙ r key ts le)
      ]
  entered-Refines low n false kvs base h s a below e r key ts le =
      get_snap-over s a key ts none (rw e refl) ∙ r key ts le

  pub apply-Refines :
      (dir : Dir env) (rng : Rng) (low : ℕ) (e : Event) (base : Base) (h : Commits) (db : Db env)
      → Allowed env dir rng low e db
      → IsSound env db
      → Refines low base h db.inner.state
      → Refines low base (note env dir rng e db h) (apply env dir rng e db).inner.state
  unfolding apply note flush_oldest
  apply-Refines dir rng low (commits tx_id read_ts buffer) base h db a s r =
      let o = db.oracle in
      let active = db.inner.state.active in
      let entered =
        not (conflicts o read_ts buffer) && enters env tx_id (versions o.next_seq buffer) active in
      entered-Refines low o.next_seq entered buffer base h db.inner.state
        (Oracle.commit env tx_id read_ts buffer o active).1.1 s.active
        (commit_table env tx_id read_ts buffer o active) r
  apply-Refines dir rng low begins base h db a s r = r
  apply-Refines dir rng low (ends read_ts) base h db a s r = r
  apply-Refines dir rng low numbers base h db a s r = r
  apply-Refines dir rng low freezes base h db a s r =
      λ key ts le. get_snap-force_freeze env dir rng db.inner key ts ∙ r key ts le
  apply-Refines dir rng low flushes base h db a s r = λ key ts le.
      elim (Option-cases (split_last db.inner.state.frozen)) [
        | inl e ↦ rw (flush_oldest, e) (r key ts le)
        | inr (p, e) ↦
            let parts = split_last-some db.inner.state.frozen p e in
            let (flushable, small) = a p.0 p.1 parts in
            get_snap-flush_oldest env dir rng db.inner p.0 p.1 key ts low parts le flushable small
            ∙ r key ts le
      ]

  pub run-Refines :
      (dir : Dir env) (rng : Rng) (low : ℕ) (es : List Event) (base : Base) (h : Commits)
      (db : Db env)
      → AllAllowed env dir rng low es db
      → IsSound env db
      → Refines low base h db.inner.state
      → Refines low base (notes env dir rng es db h) (run env dir rng es db).inner.state
  unfolding run notes
  run-Refines dir rng low [] base h db a s r = r
  run-Refines dir rng low (e ∷ es) base h db (a, as') s r =
      run-Refines dir rng low es base (note env dir rng e db h) (apply env dir rng e db) as'
        (apply-IsSound env dir rng low e db a s) (apply-Refines dir rng low e base h db a s r)

  -- Whatever happens to a sound database, in whatever order, a read at a snapshot then returns what the
  -- newest of the commits up to the snapshot wrote to the key, and what it returned at first where none of
  -- them did. Sequence numbers do not run out, tables that are flushed are readable and small, and the
  -- snapshot is not below a version that was flushed.
  pub get_snap-run :
      (dir : Dir env) (rng : Rng) (low : ℕ) (es : List Event) (db : Db env) (key : Bytes) (ts : ℕ)
      → AllAllowed env dir rng low es db
      → IsSound env db
      → low ≤ ts
      → get_snap env (run env dir rng es db).inner.state key ts
        ≡ read (notes env dir rng es db []) key ts (get_snap env db.inner.state key ts)
  unfolding read
  get_snap-run dir rng low es db key ts a s le =
      run-Refines dir rng low es (λ k t. get_snap env db.inner.state k t) [] db a s (λ k t b. refl)
        key ts le
