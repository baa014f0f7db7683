-- ===== src/Transaction/Examples.antt =====
-- Tests and applications of the theorems on the oracle: a transaction begins at 2, a plain write commits
-- the key 97 at 3, and a second transaction begins at 3.
use lowdb.Prelude.{ℕ, ◌≡◌, ◌↔◌, ◌≤◌, refl, true, inl, inr, some, none, List, [], ◌∷◌, arith}
use lowdb.Prelude.Bytes.{Bytes}
use lowdb.Common.Value.{Value, set}
use lowdb.Common.Error.{ok, err, commit_conflict}
use lowdb.Env.Memory.{memory}
use lowdb.Wal.{batch}
use lowdb.Wal.Writer.Encoding.{Fits}
use lowdb.Wal.Writer.Success.{IsReliable}
use lowdb.Memtable.Table
use lowdb.Storage.{State}
use lowdb.Storage.Levels.{Layers}
use lowdb.Transaction.Session.{Transaction, get, set as set_key, delete_key}
use lowdb.Transaction.Session.Reads.{get-write}
use lowdb.Transaction.Oracle
use lowdb.Transaction.Oracle.{Oracle, begin, end, commit, conflicts, versions}
use lowdb.Transaction.Oracle.Active.{IsActive}
use lowdb.Transaction.Oracle.Tracking.{History, latest, record_keys, Overwritten}
use lowdb.Transaction.Oracle.Consistent.{
  Reach, opened, then_step, began, accepted, IsConsistent, Reach-IsConsistent, commit-ok,
}
use lowdb.Transaction.Oracle.Held
use lowdb.Transaction.Oracle.Held.{Holds, begun, ended, refs, occurs, held-IsActive}
use lowdb.Transaction.Oracle.Conflicts.{
  conflicts_iff, commit-first_wins, commit_accepted, commit_succeeds,
}

abbrev disk : State memory
disk = record { wal = ([], []); mem_table = Table.new 0 (record { cell = 0; seed = 1 }) }

reliable : IsReliable memory
reliable = record { writes = λ bs w. refl; flushes = λ w. refl }

abbrev buffer : List (Bytes × Value)
buffer = (97 ∷ [], set (120 ∷ [])) ∷ []

abbrev first : Oracle
first = (begin (Oracle.new 2 0)).1

first-Reach : Reach memory (first, [])
first-Reach =
    then_step (opened 2 0 [] (omega arith) (λ k. unfold latest in omega arith))
      (began (Oracle.new 2 0) [])

first-commit : (commit memory 0 none buffer first disk).0 ≡ ok 3
unfolding Oracle.new begin conflicts Oracle.versions
first-commit =
    unfold Oracle.new begin Oracle.versions in
    commit_accepted memory 0 none buffer first disk reliable
      (omega arith, ((omega arith, omega arith), tt)) (unfold conflicts in refl)

abbrev second : Oracle
second = (commit memory 0 none buffer first disk).1.0

abbrev history : History
history = record_keys 3 buffer []

second-Reach : Reach memory (second, history)
second-Reach =
    then_step first-Reach
      (accepted first [] disk 0 none buffer 3 (unfold begin Oracle.new in omega arith) first-commit)

first-IsActive : IsActive 2 first.active
first-IsActive = unfold begin Oracle.new Oracle.count_up in inl refl

second-IsActive : IsActive 2 second.active
second-IsActive =
    let (_, _, left) = commit-ok memory 0 none buffer first disk 3 first-commit in
    rw left (unfold begin Oracle.new Oracle.count_up Oracle.publish in inl refl)

-- The first transaction's key is overwritten now, so the theorems refuse its commit.
buffer-Overwritten : Overwritten 2 history buffer
buffer-Overwritten = unfold record_keys latest lowdb.Common.Key.cmp_str in inl (omega arith)

Reach-IsConsistent_example : IsConsistent second history
Reach-IsConsistent_example = Reach-IsConsistent memory second-Reach

conflicts_iff_example : (conflicts second (some 2) buffer ≡ true) ↔ Overwritten 2 history buffer
conflicts_iff_example = conflicts_iff memory second history 2 buffer second-Reach second-IsActive

commit-first_wins_example :
    (Overwritten 2 history buffer
      → commit memory 1 (some 2) buffer second disk ≡ (err commit_conflict, (second, disk)))
    × ((ts : ℕ)
        → (commit memory 1 (some 2) buffer second disk).0 ≡ ok ts
        → Overwritten 2 history buffer
        → ⊥)
commit-first_wins_example =
    commit-first_wins memory second history disk 1 2 buffer second-Reach second-IsActive

untouched : Overwritten 2 [] buffer → ⊥
unfolding latest
untouched (inl h) = absurd (omega arith)
untouched (inr h) = h

buffer-Fits : Fits (batch 1 (versions first.next_seq buffer))
buffer-Fits = unfold begin Oracle.new versions in (omega arith, ((omega arith, omega arith), tt))

commit_succeeds_example : (commit memory 1 (some 2) buffer first disk).0 ≡ ok first.next_seq
commit_succeeds_example =
    commit_succeeds memory first [] disk 1 2 buffer reliable first-Reach first-IsActive buffer-Fits
      untouched

-- Two transactions share a snapshot, and one of them ends it.
abbrev shared : Oracle
shared = (begin (begin (Oracle.new 2 0)).1).1

abbrev half_ended : Oracle
half_ended = end 2 shared

half_ended-Holds : Holds memory half_ended (2 ∷ [])
unfolding begin Oracle.new
half_ended-Holds = ended [] (2 ∷ []) 2 (begun (begun (Held.opened 2 0)))

held-IsActive_example :
    (refs 2 half_ended.active ≡ occurs 2 (2 ∷ []))
    × (IsActive 2 half_ended.active ↔ (1 ≤ occurs 2 (2 ∷ [])))
held-IsActive_example = held-IsActive memory half_ended (2 ∷ []) 2 half_ended-Holds

abbrev layers : Layers memory
layers = record {
  active = disk;
  frozen = [];
  storage = record { id = 1; max_seq = 0; tables = [] };
}

abbrev session : Transaction
session = record { tx_id = 1; read_ts = 2; buffer = buffer }

get-write_example :
    (get memory layers (set_key (98 ∷ []) (121 ∷ []) session) (98 ∷ []) ≡ ok (some (121 ∷ [])))
    × (get memory layers (delete_key (98 ∷ []) session) (98 ∷ []) ≡ ok none)
    × (get memory layers (set_key (98 ∷ []) (121 ∷ []) session) (97 ∷ [])
        ≡ get memory layers session (97 ∷ []))
    × (get memory layers (delete_key (98 ∷ []) session) (97 ∷ [])
        ≡ get memory layers session (97 ∷ []))
get-write_example =
    get-write memory layers session (98 ∷ []) (121 ∷ []) (97 ∷ []) (λ e. ground (arith, e))
