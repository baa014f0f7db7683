-- ===== src/Memtable/Table/Below.antt =====
-- Memory tables whose versions are all below a number.
use lowdb.Prelude.{ℕ, ◌≤◌, ◌<◌, List, [], ◌∷◌, All, All-imp, arith}
use lowdb.Common.Key.{Key}
use lowdb.Common.Value.{Value}
use lowdb.Memtable.SkipList.{Rng}
use lowdb.Memtable.Sorted.{insert_entry, All-insert_entry}
use lowdb.Memtable.Sorted.Merge.{insert_all}
use lowdb.Memtable.Table
use lowdb.Memtable.Table.{MemTable, put_all}
use lowdb.Memtable.Table.Reads.{IsValid, iter-put_all, iter-new}

-- A table is well formed, and all its versions are below a number.
abbrev pub IsBelow : ℕ → MemTable → Type 0
IsBelow n t = IsValid t × All (λ (e : Key × Value). e.0.seq < n) (Table.iter t)

pub IsBelow-up : (n m : ℕ) (t : MemTable) → n ≤ m → IsBelow n t → IsBelow m t
IsBelow-up n m t le (valid, b) = (valid, All-imp _ _ (λ e lt. omega arith) (Table.iter t) b)

pub AllBelow-up : (n m : ℕ) (ts : List MemTable) → n ≤ m → All (IsBelow n) ts → All (IsBelow m) ts
AllBelow-up n m ts le h = All-imp _ _ (λ t b. IsBelow-up n m t le b) ts h

pub new-IsBelow : (n id : ℕ) (rng : Rng) → IsBelow n (Table.new id rng)
new-IsBelow n id rng = let (valid, e) = iter-new id rng in (valid, rw e tt)

pub All-insert_all {κ} :
    (P : Key × Value → Type κ) (kvs es : List (Key × Value))
    → All P kvs
    → All P es
    → All P (insert_all kvs es)
unfolding insert_all
All-insert_all P [] es h hs = hs
All-insert_all P ((k, v) ∷ kvs) es (h, h') hs =
    All-insert_all P kvs (insert_entry k v es) h' (All-insert_entry P k v es h hs)

pub put_all-Below :
    (n : ℕ) (kvs : List (Key × Value)) (t : MemTable)
    → All (λ (e : Key × Value). e.0.seq < n) kvs
    → IsBelow n t
    → IsBelow n (put_all kvs t)
put_all-Below n kvs t h (valid, b) =
    let (valid', e) = iter-put_all kvs t valid in
    (valid', rw e (All-insert_all (λ (f : Key × Value). f.0.seq < n) kvs (Table.iter t) h b))
