-- ===== src/Transaction/Oracle/Conflicts.antt =====
-- The commit check refuses exactly the write sets that were overwritten since their snapshot, although
-- the oracle forgets old commits.
use lowdb.Prelude.{ℕ, ◌≡◌, ◌↔◌, true, false, Bool-cases, inl, inr, Option, some, List}
use lowdb.Prelude.Bytes.{Bytes}
use lowdb.Common.Value.{Value}
use lowdb.Common.Error.{ok, err, commit_conflict}
use lowdb.Env.{Env}
use lowdb.Storage.{State}
use lowdb.Transaction.Oracle.{Oracle, commit, conflicts, first_or, versions}
use lowdb.Transaction.Oracle.Active.{IsActive, first_or-IsActive}
use lowdb.Transaction.Oracle.Tracking.{
  History, Overwritten, any_newer-Overwritten, any_newer_complete,
}
use lowdb.Storage.Success.{set_batch_succeeds}
use lowdb.Wal.Writer.Encoding.{Fits}
use lowdb.Wal.Writer.Success.{IsReliable}
use lowdb.Wal.{batch}
use lowdb.Transaction.Oracle.Consistent.{Reach, Reach-IsConsistent, commit-ok}

module _ (env : Env) where
  -- In every reachable state, a write set conflicts with an active snapshot exactly where one of its
  -- keys was committed after that snapshot, at whatever time and although old commits are pruned.
  pub conflicts_iff :
      (o : Oracle) (h : History) (read_ts : ℕ) (buffer : List (Bytes × Value))
      → Reach env (o, h)
      → IsActive read_ts o.active
      → (conflicts o (some read_ts) buffer ≡ true) ↔ Overwritten read_ts h buffer
  unfolding conflicts
  conflicts_iff o h read_ts buffer r a =
      let c = Reach-IsConsistent env r in
      let w = first_or o.visible o.active in
      (
        any_newer-Overwritten w read_ts o.recent h c.tracks buffer,
        any_newer_complete w read_ts o.recent h c.tracks buffer
            (first_or-IsActive o.visible read_ts o.active c.sorted a),
      )

  -- A commit at an active snapshot in a reachable state is refused with a conflict, and changes neither
  -- the oracle nor the log nor the memory table, where a key of its write set was committed after the
  -- snapshot; and where it is accepted, none was.
  pub commit-first_wins :
      (o : Oracle) (h : History) (s : State env) (tx_id read_ts : ℕ) (buffer : List (Bytes × Value))
      → Reach env (o, h)
      → IsActive read_ts o.active
      → (Overwritten read_ts h buffer
          → commit env tx_id (some read_ts) buffer o s ≡ (err commit_conflict, (o, s)))
        × ((ts : ℕ)
            → (commit env tx_id (some read_ts) buffer o s).0 ≡ ok ts
            → Overwritten read_ts h buffer
            → ⊥)
  unfolding commit
  commit-first_wins o h s tx_id read_ts buffer r a =
      let (to, from) = conflicts_iff o h read_ts buffer r a in
      (
        (λ lost. rw (commit, from lost)),
        (λ ts e lost.
            let (_, free, _) = commit-ok env tx_id (some read_ts) buffer o s ts e in
            let taken = from lost in cc),
      )

  -- Where the disk takes every write and the write set fits a record of the log, a commit without a
  -- conflict is accepted at the next sequence number.
  pub commit_accepted :
      (tx_id : ℕ) (read_ts : Option ℕ) (buffer : List (Bytes × Value)) (o : Oracle) (s : State env)
      → IsReliable env
      → Fits (batch tx_id (versions o.next_seq buffer))
      → conflicts o read_ts buffer ≡ false
      → (commit env tx_id read_ts buffer o s).0 ≡ ok o.next_seq
  unfolding commit
  commit_accepted tx_id read_ts buffer o s reliable fits free =
      rw (commit, free, set_batch_succeeds env reliable tx_id (versions o.next_seq buffer) s fits)

  -- On a disk that takes every write, and in a reachable state, a commit at an active snapshot is
  -- accepted at the next sequence number where its write set fits a record of the log and none of its
  -- keys was committed after the snapshot.
  pub commit_succeeds :
      (o : Oracle) (h : History) (s : State env) (tx_id read_ts : ℕ) (buffer : List (Bytes × Value))
      → IsReliable env
      → Reach env (o, h)
      → IsActive read_ts o.active
      → Fits (batch tx_id (versions o.next_seq buffer))
      → (Overwritten read_ts h buffer → ⊥)
      → (commit env tx_id (some read_ts) buffer o s).0 ≡ ok o.next_seq
  commit_succeeds o h s tx_id read_ts buffer reliable r a fits free =
      commit_accepted tx_id (some read_ts) buffer o s reliable fits
        (elim (Bool-cases (conflicts o (some read_ts) buffer)) [
          | inl taken ↦ absurd (free ((conflicts_iff o h read_ts buffer r a).0 taken))
          | inr clear ↦ clear
        ])
