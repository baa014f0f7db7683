-- ===== src/Transaction/Session.antt =====
-- transaction/src/lib.rs and transaction/src/snapshot.rs, and the end of `Oracle::commit` and
-- `Oracle::freeze` (transaction/src/oracle.rs). The write buffer, a `BTreeMap`, is a list in ascending
-- order of its keys. A transaction or a snapshot holds a state by pointers: a read takes what that state
-- holds at the time of the call.
pub mod Reads
use lowdb.Prelude.{
  ℕ, Bool, true, false, not, Option, none, some, List, [], ◌∷◌, Ordering, if◌then◌else◌,
}
use lowdb.Prelude.Bytes.{Bytes}
use lowdb.Common.Key.{cmp_str}
use lowdb.Common.Value
use lowdb.Common.Value.{Value, delete}
use lowdb.Common.Error.{DbResult, ok, err, discard}
use lowdb.Env.{Env}
use lowdb.Memtable.SkipList.{Rng}
use lowdb.Storage.Levels.{Dir, Layers, Storage, get_snap, freeze_if_full, freeze_active}
use lowdb.Transaction.Oracle
use lowdb.Transaction.Oracle.{Oracle, begin, end, next_tx_id, commit}

pub record Transaction : Type 0 where
  pub tx_id : ℕ
  pub read_ts : ℕ
  pub buffer : List (Bytes × Value)

-- `BTreeMap::insert` and `BTreeMap::get`
unfoldable pub insert_buffer : Bytes → Value → List (Bytes × Value) → List (Bytes × Value)
insert_buffer key value [] = (key, value) ∷ []
insert_buffer key value ((k, v) ∷ kvs) =
    let rest = insert_buffer key value kvs in
    elim (cmp_str key k) [
      | Ordering.lt ↦ (key, value) ∷ (k, v) ∷ kvs
      | Ordering.eq ↦ (key, value) ∷ kvs
      | Ordering.gt ↦ (k, v) ∷ rest
    ]

unfoldable pub get_buffer : List (Bytes × Value) → Bytes → Option Value
get_buffer [] key = none
get_buffer ((k, v) ∷ kvs) key =
    let rest = get_buffer kvs key in
    elim (cmp_str key k) [ Ordering.lt ↦ none | Ordering.eq ↦ some v | Ordering.gt ↦ rest ]

-- `Transaction::new`
unfoldable pub new_transaction : Oracle → Transaction × Oracle
new_transaction o =
    let (read_ts, o) = begin o in
    let (tx_id, o) = next_tx_id o in (record { tx_id = tx_id; read_ts = read_ts; buffer = [] }, o)

unfoldable pub set : Bytes → Bytes → Transaction → Transaction
set key value tx = record tx { buffer = insert_buffer key (Value.set value) tx.buffer }

unfoldable pub delete_key : Bytes → Transaction → Transaction
delete_key key tx = record tx { buffer = insert_buffer key delete tx.buffer }

-- `drop` of a transaction or a snapshot
unfoldable pub drop_at : ℕ → Oracle → Oracle
drop_at read_ts o = end read_ts o

-- `Snapshot::new`
unfoldable pub new_snapshot : Oracle → ℕ × Oracle
new_snapshot o = begin o

module _ (env : Env) where
  unfoldable pub get : Layers env → Transaction → Bytes → DbResult (Option Bytes)
  get state tx key = elim (get_buffer tx.buffer key) [
    | some v ↦ elim v [ Value.set value ↦ ok (some value) | delete ↦ ok none ]
    | none ↦ get_snap env state key tx.read_ts
  ]

  -- `Snapshot::get`
  unfoldable pub get_at : Layers env → ℕ → Bytes → DbResult (Option Bytes)
  get_at state read_ts key = get_snap env state key read_ts

  module _ (dir : Dir env) (rng : Rng) where
    -- `Oracle::commit` with the freeze at its end. The wait for the flusher changes nothing.
    unfoldable pub commit_frozen :
        ℕ
        → Option ℕ
        → List (Bytes × Value)
        → Oracle
        → Storage env
        → DbResult ℕ × (Oracle × Storage env)
    commit_frozen tx_id read_ts buffer o s =
        let (r, (o', active)) = commit env tx_id read_ts buffer o s.state.active in
        let s' = record s { state = record s.state { active = active } } in
        let (frozen, s'') = freeze_if_full env dir rng s' in
        elim r [
          | err e ↦ (err e, (o', s'))
          | ok commit_ts ↦ elim frozen [
            | err e ↦ (err e, (o', s''))
            | ok _ ↦ (ok commit_ts, (o', s''))
          ]
        ]

    unfoldable pub freeze : Storage env → DbResult (Unit {0}) × Storage env
    freeze s = freeze_active env dir rng s

    -- `Transaction::commit`, with the drop of the transaction at its end
    unfoldable pub commit_transaction :
        Transaction → Oracle → Storage env → DbResult (Unit {0}) × (Oracle × Storage env)
    commit_transaction tx o s = elim tx.buffer [
      | [] ↦ (ok tt, (drop_at tx.read_ts o, s))
      | kv ∷ kvs ↦
          let (r, (o', s')) = commit_frozen tx.tx_id (some tx.read_ts) (kv ∷ kvs) o s in
          (discard r, (drop_at tx.read_ts o', s'))
    ]
