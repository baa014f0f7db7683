-- ===== src/Engine/Reads.antt =====
-- What `get` finds behind `set`.
use lowdb.Prelude.{
  ℕ, ◌<◌, ◌≡◌, refl, ap, ◌∙◌, inl, inr, Bool-cases, Ordering-cases, none, some, List, [], ◌∷◌, All,
  arith,
}
use lowdb.Prelude.Bytes.{Bytes}
use lowdb.Common.Key.{Key, cmp}
use lowdb.Common.Key.Order.{cmp_refl, eq_of_cmp, cmp_str_refl}
use lowdb.Common.Lookup.{found}
use lowdb.Common.Value.{Value}
use lowdb.Common.Error.{ok, discard_ok}
use lowdb.Env.{Env}
use lowdb.Memtable.SkipList.{Rng}
use lowdb.Memtable.Sorted.{insert_entry, lookup_entry, entry_if}
use lowdb.Memtable.Table
use lowdb.Memtable.Table.{MemTable, put, put_all}
use lowdb.Memtable.Table.Reads.{says, IsValid, get_snap_lem, iter-put}
use lowdb.Sstable.Table.Layout.{Entry}
use lowdb.Storage.{State, set_batch}
use lowdb.Storage.Levels.{Dir, Layers, Storage, get_snap, freeze_if_full}
use lowdb.Storage.Levels.Freeze.{get_snap-force_freeze}
use lowdb.Transaction.Oracle.{Oracle, commit, conflicts, publish, versions, next_tx_id}
use lowdb.Transaction.Session.{commit_frozen}
use lowdb.Engine.{Db, get, set}

-- The lookup of a new version at its own number finds it.
lookup_entry-insert_entry :
    (k : Key) (v : Value) (es : List Entry)
    → All (λ (e : Entry). e.0.seq < k.seq) es
    → lookup_entry k.user k.seq (insert_entry k v es) ≡ some (k, v)
unfolding lookup_entry insert_entry
lookup_entry-insert_entry k v [] h = ground (arith, cmp_refl k, cmp_str_refl k.user)
lookup_entry-insert_entry k v ((j, x) ∷ es) (h, hs) =
    let rest = lookup_entry-insert_entry k v es hs in
    elim (Ordering-cases (cmp j k)) [
      | inl e ↦ rw (insert_entry, e, lookup_entry, e) rest
      | inr (inl e) ↦
          absurd (let same = ap (λ (i : Key). i.seq) (eq_of_cmp j k e) in omega (arith, same, h))
      | inr (inr e) ↦
          rw (insert_entry, e, lookup_entry, cmp_refl k) (rw (cmp_str_refl k.user, entry_if) refl)
    ]

module _ (env : Env) where
  get_snap-freeze_if_full :
      (dir : Dir env) (rng : Rng) (s : Storage env) (key : Bytes) (seq : ℕ)
      → get_snap env (freeze_if_full env dir rng s).1.state key seq ≡ get_snap env s.state key seq
  unfolding freeze_if_full
  get_snap-freeze_if_full dir rng s key seq =
      elim (Bool-cases (Table.is_full s.state.active.mem_table)) [
        | inl e ↦ rw (freeze_if_full, e) (get_snap-force_freeze env dir rng s key seq)
        | inr e ↦ rw (freeze_if_full, e) refl
      ]

  set_batch_table :
      (tx_id : ℕ) (kvs : List (Key × Value)) (s : State env)
      → (set_batch env tx_id kvs s).0 ≡ ok tt
      → (set_batch env tx_id kvs s).1.mem_table ≡ put_all kvs s.mem_table
  unfolding set_batch
  set_batch_table tx_id kvs s h = ground (arith, h)

  commit_inv :
      (tx_id : ℕ) (buffer : List (Bytes × Value)) (o : Oracle) (s : State env) (ts : ℕ)
      → (commit env tx_id none buffer o s).0 ≡ ok ts
      → ((set_batch env tx_id (versions o.next_seq buffer) s).0 ≡ ok tt)
        × ((commit env tx_id none buffer o s).1.0.visible ≡ o.next_seq)
        × ((commit env tx_id none buffer o s).1.1
            ≡ (set_batch env tx_id (versions o.next_seq buffer) s).1)
  unfolding commit conflicts publish
  commit_inv tx_id buffer o s ts h = ground (arith, h)

  -- A commit whose freeze succeeds as well is a commit, and reads as the state that the commit leaves.
  commit_frozen_inv :
      (dir : Dir env) (rng : Rng) (tx_id : ℕ) (buffer : List (Bytes × Value)) (o : Oracle)
      (s : Storage env) (ts : ℕ)
      → (commit_frozen env dir rng tx_id none buffer o s).0 ≡ ok ts
      → let (r, (o', active)) = commit env tx_id none buffer o s.state.active in
        (r ≡ ok ts)
        × ((commit_frozen env dir rng tx_id none buffer o s).1.0 ≡ o')
        × ((commit_frozen env dir rng tx_id none buffer o s).1.1
            ≡ (freeze_if_full env dir rng
                (record s { state = record s.state { active = active } })).1)
  unfolding commit_frozen
  commit_frozen_inv dir rng tx_id buffer o s ts h = ground (arith, h)

  -- The state of the storage behind a commit without the freeze.
  abbrev committed : ℕ → List (Bytes × Value) → Oracle → Storage env → Layers env
  committed tx_id buffer o s = record s.state {
    active = (commit env tx_id none buffer o s.state.active).1.1;
  }

  get_snap-commit_frozen :
      (dir : Dir env) (rng : Rng) (tx_id : ℕ) (buffer : List (Bytes × Value)) (o : Oracle)
      (s : Storage env) (ts : ℕ) (key : Bytes) (seq : ℕ)
      → (commit_frozen env dir rng tx_id none buffer o s).0 ≡ ok ts
      → get_snap env (commit_frozen env dir rng tx_id none buffer o s).1.1.state key seq
        ≡ get_snap env (committed tx_id buffer o s) key seq
  get_snap-commit_frozen dir rng tx_id buffer o s ts key seq h =
      let (_, _, e) = commit_frozen_inv dir rng tx_id buffer o s ts h in
      rw e
        (get_snap-freeze_if_full dir rng (record s { state = committed tx_id buffer o s }) key seq)

  -- The memory table that a write of one value leaves answers at the number of the write.
  written_found :
      (ts : ℕ) (key value : Bytes) (t : MemTable)
      → IsValid t
      → All (λ (e : Entry). e.0.seq < ts) (Table.iter t)
      → Table.get_snap (put_all (versions ts ((key, Value.set value) ∷ [])) t) key ts ≡ found value
  unfolding versions put_all
  written_found ts key value t v old =
      let k : Key = record { user = key; seq = ts } in
      let (valid, e) = iter-put t k (Value.set value) v in
      get_snap_lem (put k (Value.set value) t) key ts valid
      ∙ ap (λ es. says (lookup_entry key ts es)) e
      ∙ ap says (lookup_entry-insert_entry k (Value.set value) (Table.iter t) old)

  found_first :
      (s : Layers env) (key value : Bytes) (seq : ℕ)
      → Table.get_snap s.active.mem_table key seq ≡ found value
      → get_snap env s key seq ≡ ok (some value)
  unfolding get_snap
  found_first s key value seq h = rw (get_snap, h) refl

  get_snap-commit :
      (dir : Dir env) (rng : Rng) (tx_id ts : ℕ) (o : Oracle) (s : Storage env) (key value : Bytes)
      → IsValid s.state.active.mem_table
      → All (λ (e : Entry). e.0.seq < o.next_seq) (Table.iter s.state.active.mem_table)
      → let run = commit_frozen env dir rng tx_id none ((key, Value.set value) ∷ []) o s in
        run.0 ≡ ok ts → get_snap env run.1.1.state key run.1.0.visible ≡ ok (some value)
  get_snap-commit dir rng tx_id ts o s key value v old h =
      let buffer = (key, Value.set value) ∷ [] in
      let (done, oracle, _) = commit_frozen_inv dir rng tx_id buffer o s ts h in
      let (stored, seen, state) = commit_inv tx_id buffer o s.state.active ts done in
      let table =
        ap (λ (a : State env). a.mem_table) state
        ∙ set_batch_table tx_id (versions o.next_seq buffer) s.state.active stored in
      rw (oracle, seen)
        (get_snap-commit_frozen dir rng tx_id buffer o s ts key o.next_seq h
          ∙ found_first (committed tx_id buffer o s) key value o.next_seq
              (rw table (written_found o.next_seq key value s.state.active.mem_table v old)))

  -- Where `set` succeeds a `get` finds the value, whether the memory table was full and frozen or not. The
  -- active table is well formed, and the numbers in it are below the next one.
  pub get-set :
      (dir : Dir env) (rng : Rng) (key value : Bytes) (db : Db env)
      → IsValid db.inner.state.active.mem_table
      → All
          (λ (e : Entry). e.0.seq < db.oracle.next_seq)
          (Table.iter db.inner.state.active.mem_table)
      → (set env dir rng key value db).0 ≡ ok tt
      → get env (set env dir rng key value db).1 key ≡ ok (some value)
  unfolding set get next_tx_id
  get-set dir rng key value db v old h =
      let (tx_id, oracle) = next_tx_id db.oracle in
      let run =
        commit_frozen env dir rng tx_id none ((key, Value.set value) ∷ []) oracle db.inner in
      let (ts, done) = discard_ok run.0 h in
      get_snap-commit dir rng tx_id ts oracle db.inner key value v old done
