-- ===== src/Engine/Events/Pinned/Reads.antt =====
-- Reads through a snapshot or a transaction are repeatable.
use lowdb.Prelude.{ℕ, ◌<◌, ◌≡◌, refl, ◌∙◌, List, [], ◌∷◌, arith}
use lowdb.Prelude.Bytes.{Bytes}
use lowdb.Env.{Env}
use lowdb.Memtable.SkipList.{Rng}
use lowdb.Storage.Levels.{Dir, Layers, get_snap}
use lowdb.Transaction.Session
use lowdb.Transaction.Session.{Transaction}
use lowdb.Engine.{Db}
use lowdb.Engine.Events.{Event, apply, run, AllAllowed}
use lowdb.Engine.Events.Sound.{IsSound, apply-IsSound}
use lowdb.Engine.Events.Pinned.{Pin, pin, held, keep, keeps}
use lowdb.Engine.Events.Pinned.Held.{IsPinned, pin-IsPinned}
use lowdb.Engine.Events.Pinned.Kept.{apply-IsKept}

module _ (env : Env) where
  run-kept :
      (dir : Dir env) (rng : Rng) (ts low : ℕ) (es : List Event) (p : Pin) (db : Db env)
      → AllAllowed env dir rng low es db
      → IsSound env db
      → IsPinned env ts p db
      → (key : Bytes)
      → get_snap env (held env (keeps env dir rng es db p) (run env dir rng es db)) key ts
        ≡ get_snap env (held env p db) key ts
  unfolding run keeps
  run-kept dir rng ts low [] p db a s k key = refl
  run-kept dir rng ts low (e ∷ es) p db (a, as') s k key =
      let (k', same) = apply-IsKept env dir rng ts low e p db a s k in
      run-kept dir rng ts low es (keep env dir rng e db p) (apply env dir rng e db) as'
        (apply-IsSound env dir rng low e db a s) k' key
      ∙ same key

  get-alike :
      (s s' : Layers env) (tx : Transaction) (key : Bytes)
      → get_snap env s' key tx.read_ts ≡ get_snap env s key tx.read_ts
      → Session.get env s' tx key ≡ Session.get env s tx key
  unfolding Session.get
  get-alike s s' tx key h = ground (arith, h)

  held-pin :
      (db : Db env) (key : Bytes) (ts : ℕ)
      → get_snap env (held env (pin env db) db) key ts ≡ get_snap env db.inner.state key ts
  unfolding held
  held-pin db key ts = refl

  -- Reads are repeatable: whatever happens to a sound database behind the time at which a snapshot or a
  -- transaction took the state that it holds, commits, freezes and flushes of others in any order, a read
  -- through it returns what it did at that time. The snapshot is below the next sequence number, these do
  -- not run out, and tables that are flushed are readable and small.
  pub get-repeats :
      (dir : Dir env) (rng : Rng) (low : ℕ) (es : List Event) (db : Db env) (tx : Transaction)
      (key : Bytes)
      → AllAllowed env dir rng low es db
      → IsSound env db
      → tx.read_ts < db.oracle.next_seq
      → let later = held env (keeps env dir rng es db (pin env db)) (run env dir rng es db) in
        (Session.get env later tx key ≡ Session.get env db.inner.state tx key)
        × (Session.get_at env later tx.read_ts key
            ≡ Session.get_at env db.inner.state tx.read_ts key)
  unfolding Session.get Session.get_at
  get-repeats dir rng low es db tx key a s past =
      let same =
        run-kept dir rng tx.read_ts low es (pin env db) db a s (pin-IsPinned env tx.read_ts db past)
          key in
      let same' = same ∙ held-pin db key tx.read_ts in
      (
        get-alike db.inner.state
            (held env (keeps env dir rng es db (pin env db)) (run env dir rng es db)) tx key same',
        same',
      )
