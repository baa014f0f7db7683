-- ===== src/Transaction/Oracle/Consistent.antt =====
-- The invariant of the oracle, and that it holds in every state that the oracle can reach.
use lowdb.Prelude.{
  ℕ, ◌+◌, ◌^◌, ◌≤◌, ◌<◌, ◌≡◌, ◌⊎◌, false, Bool-cases, inl, inr, Option, List, [], ◌∷◌, arith,
  All-imp,
}
use lowdb.Prelude.Bytes.{Bytes}
use lowdb.Common.Value.{Value}
use lowdb.Common.Error.{DbError, ok, err}
use lowdb.Env.{Env}
use lowdb.Storage.{State}
use lowdb.Transaction.Oracle
use lowdb.Transaction.Oracle.{
  Oracle, begin, end, commit, conflicts, first_or, next_tx_id, publish, insert_keys, versions, u64,
}
use lowdb.Transaction.Oracle.Active.{
  IsSorted, UpTo, count_up-UpTo, count_up-IsSorted, count_down-UpTo, count_down-IsSorted,
  first_or-count_up, first_or-count_down,
}
use lowdb.Transaction.Oracle.Tracking.{
  History, latest, record_keys, Tracks, Tracks-imp, insert_keys-Tracks, retain_above-Tracks,
}

-- The oracle and all commits that it has accepted.
abbrev pub World : Type 0
World = Oracle × History

pub record IsConsistent (o : Oracle) (h : History) : Type 0 where
  pub sorted : IsSorted o.active
  pub up_to : UpTo o.visible o.active
  pub ahead : o.visible ≤ o.next_seq
  pub tracks : Tracks (first_or o.visible o.active) o.recent h

new-IsConsistent :
    (max_seq tx_id : ℕ) (h : History)
    → max_seq + 1 < 2 ^ 64
    → ((k : Bytes) → latest k h ≤ max_seq)
    → IsConsistent (Oracle.new max_seq tx_id) h
unfolding Oracle.new
new-IsConsistent max_seq tx_id h bound old = record {
  sorted = tt;
  up_to = tt;
  ahead = omega arith;
  tracks = record { complete = λ k. inl (old k); exact = λ k ts e. cc };
}

begin-IsConsistent : (o : Oracle) (h : History) → IsConsistent o h → IsConsistent (begin o).1 h
unfolding begin
begin-IsConsistent o h c = record {
  sorted = count_up-IsSorted o.visible o.active c.sorted;
  up_to = count_up-UpTo o.visible o.active c.up_to;
  ahead = c.ahead;
  tracks = rw (first_or-count_up o.visible o.active c.up_to) c.tracks;
}

end-IsConsistent : (o : Oracle) (h : History) (r : ℕ) → IsConsistent o h → IsConsistent (end r o) h
unfolding end
end-IsConsistent o h r c = record {
  sorted = count_down-IsSorted r o.active c.sorted;
  up_to = count_down-UpTo o.visible r o.active c.up_to;
  ahead = c.ahead;
  tracks =
      Tracks-imp _ _ o.recent h (first_or-count_down o.visible r o.active c.sorted c.up_to)
        c.tracks;
}

first_or_le : (v w : ℕ) (xs : List (ℕ × ℕ)) → v ≤ w → first_or v xs ≤ first_or w xs
first_or_le v w [] le = le
first_or_le v w ((t, n) ∷ xs) le = omega arith

publish-IsConsistent :
    (o : Oracle) (h : History) (buffer : List (Bytes × Value))
    → o.next_seq + 1 < 2 ^ 64
    → IsConsistent o h
    → IsConsistent
        (publish o.next_seq buffer (record o { next_seq = u64 (o.next_seq + 1) }))
        (record_keys o.next_seq buffer h)
unfolding publish
publish-IsConsistent o h buffer bound c =
    let le : o.visible ≤ o.next_seq = c.ahead in
    let w = first_or o.next_seq o.active in
    record {
      sorted = c.sorted;
      up_to = All-imp _ _ (λ x b. omega arith) o.active c.up_to;
      ahead = omega arith;
      tracks = retain_above-Tracks w _ _ (
          insert_keys-Tracks w o.next_seq buffer o.recent h
            (Tracks-imp _ w o.recent h (first_or_le o.visible o.next_seq o.active le) c.tracks));
    }

module _ (env : Env) where
  pub commit-ok :
      (tx_id : ℕ) (read_ts : Option ℕ) (buffer : List (Bytes × Value)) (o : Oracle) (s : State env)
      (ts : ℕ)
      → (commit env tx_id read_ts buffer o s).0 ≡ ok ts
      → (ts ≡ o.next_seq)
        × (conflicts o read_ts buffer ≡ false)
        × ((commit env tx_id read_ts buffer o s).1.0
            ≡ publish o.next_seq buffer (record o { next_seq = u64 (o.next_seq + 1) }))
  unfolding commit
  commit-ok tx_id read_ts buffer o s ts e = ground arith

  commit-err :
      (tx_id : ℕ) (read_ts : Option ℕ) (buffer : List (Bytes × Value)) (o : Oracle) (s : State env)
      (e : DbError)
      → (commit env tx_id read_ts buffer o s).0 ≡ err e
      → ((commit env tx_id read_ts buffer o s).1.0 ≡ o)
        ⊎ ((commit env tx_id read_ts buffer o s).1.0 ≡ record o { next_seq = u64 (o.next_seq + 1) })
  unfolding commit
  commit-err tx_id read_ts buffer o s e h = elim (Bool-cases (conflicts o read_ts buffer)) [
    | inl c ↦ inl (rw (commit, c))
    | inr c ↦ inr (ground arith)
  ]

  -- What can happen to the oracle, one holder of a lock after the other. A commit that is accepted is
  -- added to the history; sequence numbers do not run out.
  pub data Step : World → World → Type 1 where
    began : (o : Oracle) (h : History) → Step (o, h) ((begin o).1, h)
    ended : (o : Oracle) (h : History) (r : ℕ) → Step (o, h) (end r o, h)
    numbered : (o : Oracle) (h : History) → Step (o, h) ((next_tx_id o).1, h)
    accepted :
        (o : Oracle) (h : History) (s : State env) (tx_id : ℕ) (read_ts : Option ℕ)
        (buffer : List (Bytes × Value)) (ts : ℕ)
        → o.next_seq + 1 < 2 ^ 64
        → (commit env tx_id read_ts buffer o s).0 ≡ ok ts
        → Step (o, h) ((commit env tx_id read_ts buffer o s).1.0, record_keys ts buffer h)
    failed :
        (o : Oracle) (h : History) (s : State env) (tx_id : ℕ) (read_ts : Option ℕ)
        (buffer : List (Bytes × Value)) (e : DbError)
        → o.next_seq + 1 < 2 ^ 64
        → (commit env tx_id read_ts buffer o s).0 ≡ err e
        → Step (o, h) ((commit env tx_id read_ts buffer o s).1.0, h)

  pub data Reach : World → Type 1 where
    opened :
        (max_seq tx_id : ℕ) (h : History)
        → max_seq + 1 < 2 ^ 64
        → ((k : Bytes) → latest k h ≤ max_seq)
        → Reach (Oracle.new max_seq tx_id, h)
    then_step : {v w : World} → Reach v → Step v w → Reach w

  Step-IsConsistent : {v w : World} → Step v w → IsConsistent v.0 v.1 → IsConsistent w.0 w.1
  Step-IsConsistent (began o h) c = begin-IsConsistent o h c
  Step-IsConsistent (ended o h r) c = end-IsConsistent o h r c
  Step-IsConsistent (numbered o h) c =
      unfold next_tx_id in
      record { sorted = c.sorted; up_to = c.up_to; ahead = c.ahead; tracks = c.tracks }
  Step-IsConsistent (accepted o h s tx_id read_ts buffer ts bound e) c =
      let (same, _, left) = commit-ok tx_id read_ts buffer o s ts e in
      rw (same, left) (publish-IsConsistent o h buffer bound c)
  Step-IsConsistent (failed o h s tx_id read_ts buffer e bound eq) c =
      elim (commit-err tx_id read_ts buffer o s e eq) [
        | inl kept ↦ rw kept c
        | inr moved ↦ rw moved (record {
          sorted = c.sorted;
          up_to = c.up_to;
          ahead = omega (arith, c.ahead);
          tracks = c.tracks;
        })
      ]

  -- In every state that the oracle can reach, the active snapshots are in ascending order and not in
  -- the future, and the map of recent commits has the last commit of each key that is newer than the
  -- oldest active snapshot.
  pub Reach-IsConsistent : {w : World} → Reach w → IsConsistent w.0 w.1
  Reach-IsConsistent (opened max_seq tx_id h bound old) = new-IsConsistent max_seq tx_id h bound old
  Reach-IsConsistent (then_step r s) = Step-IsConsistent s (Reach-IsConsistent r)
