-- ===== src/Storage/Restore/Fuel.antt =====
-- The rounds that `replay_log` gives to its loop are enough for every log.
use lowdb.Prelude.{ℕ, zero, suc, ◌<◌, ◌≡◌, refl, Option, none, some, length, arith}
use lowdb.Prelude.Bytes.{Bytes}
use lowdb.Common.Error.{DbResult, ok, err}
use lowdb.Env.{Env}
use lowdb.Wal.{WalCmd}
use lowdb.Wal.Reader.{next}
use lowdb.Wal.Reader.Progress.{next_takes}
use lowdb.Memtable.SkipList.{Rng}
use lowdb.Storage.Restore.{Replay, apply_cmd, replay, replay_log}

module _ (env : Env) (rng : Rng) where
  -- The loop comes to an end, with the same result for every number of rounds above the log's bytes.
  abbrev Ends : Bytes → Replay → Type 0
  Ends r p = (d : DbResult Replay) × ((m : ℕ) → length r < m → replay env rng m r p ≡ some d)

  Ends-unread :
      (r : Bytes) (p : Replay) (d : DbResult Replay)
      → ((m : ℕ) → replay env rng (suc m) r p ≡ some d)
      → Ends r p
  Ends-unread r p d h = (d, from)
    where
      from : (m : ℕ) → length r < m → replay env rng m r p ≡ some d
      from zero lt = absurd (omega arith)
      from (suc m) lt = h m

  -- one round
  round-Ends :
      (r : Bytes) (p : Replay)
      → ((r' : Bytes) (p' : Replay) → length r' < length r → Ends r' p')
      → Ends r p
  unfolding replay
  round-Ends r p later = on_next (next env r) refl
    where
      on_next : (x : DbResult (Option WalCmd × Bytes)) → next env r ≡ x → Ends r p
      on_next (err e) h = Ends-unread r p (err e) (λ m. rw (replay, h) refl)
      on_next (ok (none, r')) h = Ends-unread r p (ok p) (λ m. rw (replay, h) refl)
      on_next (ok (some c, r')) h = on_applied (apply_cmd rng c p) refl
        where
          on_applied : (x : DbResult Replay) → apply_cmd rng c p ≡ x → Ends r p
          on_applied (err e) a = Ends-unread r p (err e) (λ m. rw (replay, h, a) refl)
          on_applied (ok p') a =
              let shorter = next_takes env r r' c h in
              let (d, all) = later r' p' shorter in (d, from d all)
            where
              from :
                  (d : DbResult Replay)
                  → ((m : ℕ) → length r' < m → replay env rng m r' p' ≡ some d)
                  → (m : ℕ) → length r < m
                  → replay env rng m r p ≡ some d
              from d all zero lt' = absurd (omega arith)
              from d all (suc m) lt' =
                  let shorter = next_takes env r r' c h in rw (replay, h, a) (all m (omega arith))

  replay-Ends : (n : ℕ) (r : Bytes) (p : Replay) → length r < n → Ends r p
  replay-Ends zero r p lt = absurd (omega arith)
  replay-Ends (suc n) r p lt = round-Ends r p (λ r' p' lt'. replay-Ends n r' p' (omega arith))

  -- On every log, well formed or not, and with any number of rounds above the number of its bytes, the loop
  -- comes to its end, and what it returns there, a state or an error, is the result of `replay_log`.
  pub replay_log_enough :
      (n : ℕ) (r : Bytes) (p : Replay)
      → length r < n
      → replay env rng n r p ≡ some (replay_log env rng r p)
  unfolding replay_log
  replay_log_enough n r p lt =
      let (d, all) = replay-Ends n r p lt in
      let here = all (suc (length r)) (omega arith) in rw (all n lt, replay_log, here) refl
