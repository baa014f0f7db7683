-- ===== src/Engine/Events/Pinned/Kept.antt =====
-- What each event does to a state that is held: it reads the same.
use lowdb.Prelude.{
  ℕ, ◌+◌, ◌<◌, ◌≡◌, ◌^◌, refl, ◌∙◌, ◌⊎◌, inl, inr, false, not, ◌&&◌, Option, none, some,
  Option-cases, List, [], ◌∷◌, All, All-imp, OneOf, arith,
}
use lowdb.Prelude.Bytes.{Bytes}
use lowdb.Common.Value.{Value}
use lowdb.Common.Lookup.{absent}
use lowdb.Common.Error.{ok}
use lowdb.Env.{Env}
use lowdb.Memtable.SkipList.{Rng}
use lowdb.Memtable.Table
use lowdb.Memtable.Table.{MemTable, put_all}
use lowdb.Memtable.Table.Reads.{IsValid}
use lowdb.Storage.Disk.{search_levels}
use lowdb.Storage.Levels.{Dir, Storage, get_snap, split_last, flush_oldest, force_freeze}
use lowdb.Storage.Levels.Flush.{IsMoved, flush_oldest-IsMoved}
use lowdb.Storage.Levels.Placed.{split_last-some}
use lowdb.Transaction.Oracle
use lowdb.Transaction.Oracle.{Oracle, conflicts, versions}
use lowdb.Engine.{Db}
use lowdb.Engine.Events.{
  Event, commits, begins, ends, numbers, freezes, flushes, apply, enters, Allowed,
}
use lowdb.Engine.Events.Sound.{IsSound, commit_table, commit_oracle, split_last-All}
use lowdb.Engine.Events.Pinned.{Pin, tables, held, keep}
use lowdb.Engine.Events.Pinned.Absent.{IsAbove}
use lowdb.Engine.Events.Pinned.Frozen.{force_freeze-IsFrozen}
use lowdb.Engine.Events.Pinned.Held.{
  IsPinned, entered_unseen, entered-IsAbove, in_memory, get_snap-held, flushed_unseen,
}

module _ (env : Env) where
  -- What an event does to a snapshot: nothing, and it can go on.
  abbrev pub IsKept : ℕ → Pin → Db env → Pin → Db env → Type 0
  IsKept ts p db p' db' =
      IsPinned env ts p' db'
      × ((key : Bytes)
          → get_snap env (held env p' db') key ts ≡ get_snap env (held env p db) key ts)

  top_alike :
      (a : Option MemTable) (t t' : MemTable) (key : Bytes) (ts : ℕ)
      → Table.get_snap t' key ts ≡ Table.get_snap t key ts
      → Table.get_snap (elim a [ none ↦ t' | some x ↦ x ]) key ts
        ≡ Table.get_snap (elim a [ none ↦ t | some x ↦ x ]) key ts
  top_alike none t t' key ts e = e
  top_alike (some x) t t' key ts e = refl

  commit-IsKept :
      (dir : Dir env) (rng : Rng) (ts tx_id : ℕ) (read_ts : Option ℕ)
      (buffer : List (Bytes × Value)) (p : Pin) (db : Db env)
      → db.oracle.next_seq + 1 < 2 ^ 64
      → IsSound env db
      → IsPinned env ts p db
      → IsKept ts p db p (apply env dir rng (commits tx_id read_ts buffer) db)
  unfolding apply
  commit-IsKept dir rng ts tx_id read_ts buffer p db bound s k =
      let o = db.oracle in
      let active = db.inner.state.active in
      let entered =
        not (conflicts o read_ts buffer) && enters env tx_id (versions o.next_seq buffer) active in
      let e = commit_table env tx_id read_ts buffer o active in
      let (_, up, _) = commit_oracle env tx_id read_ts buffer o active bound s.visible in
      let t' = (Oracle.commit env tx_id read_ts buffer o active).1.1.mem_table in
      let still : IsAbove ts active.mem_table → IsAbove ts t' =
        entered-IsAbove env ts o.next_seq entered buffer active.mem_table t' k.past s.active e in
      (
        record {
          active = elim k.active [ inl none_yet ↦ inl none_yet | inr above ↦ inr (still above) ];
          frozen = k.frozen;
          past = omega (arith, k.past, up);
        },
        λ key.
            get_snap-held env p p db (apply env dir rng (commits tx_id read_ts buffer) db) key ts
              refl
              (top_alike p.active active.mem_table t' key ts (
                entered_unseen env ts o.next_seq entered buffer active.mem_table t' key k.past
                  s.active e))
              (λ h. refl),
      )

  freeze-IsKept :
      (dir : Dir env) (rng : Rng) (ts : ℕ) (p : Pin) (db : Db env)
      → IsPinned env ts p db
      → IsKept ts p db (keep env dir rng freezes db p) (apply env dir rng freezes db)
  unfolding apply keep
  freeze-IsKept dir rng ts p db k = elim (force_freeze-IsFrozen env dir rng db.inner) [
    | inl (done, empty, frozen, disk) ↦
        rw (keep, done)
          (
            record {
              active = inr (rw empty tt);
              frozen = rw frozen (
                moved_in p.active k.active,
                All-imp _ _ (λ t w. still_in t p.active w) db.inner.state.frozen k.frozen,
              );
              past = k.past;
            },
            λ key. get_snap-held env p _ db _ key ts refl refl (λ h. rw disk refl),
          )
    | inr (e, failed, same) ↦
        rw (keep, failed)
          (
            record { active = rw same k.active; frozen = rw same k.frozen; past = k.past },
            λ key.
                get_snap-held env p p db _ key ts refl
                  (top_alike p.active db.inner.state.active.mem_table
                    (force_freeze env dir rng db.inner).1.state.active.mem_table key ts
                    (rw same refl))
                  (λ h. rw same refl),
          )
  ]
    where
      moved_in :
          (a : Option MemTable)
          → (a ≡ none) ⊎ IsAbove ts db.inner.state.active.mem_table
          → OneOf db.inner.state.active.mem_table
              ((elim a [ none ↦ db.inner.state.active.mem_table | some t ↦ t ]) ∷ p.frozen)
            ⊎ IsAbove ts db.inner.state.active.mem_table
      moved_in none w = inl (inl refl)
      moved_in (some t) (inl e) = absurd (cc)
      moved_in (some t) (inr above) = inr above

      still_in :
          (t : MemTable) (a : Option MemTable)
          → OneOf t (elim a [ none ↦ p.frozen | some x ↦ x ∷ p.frozen ]) ⊎ IsAbove ts t
          → OneOf t ((elim a [ none ↦ db.inner.state.active.mem_table | some x ↦ x ]) ∷ p.frozen)
            ⊎ IsAbove ts t
      still_in t a (inr above) = inr above
      still_in t none (inl m) = inl (inr m)
      still_in t (some x) (inl m) = inl m

  -- The layers behind a flush: what is pinned stays so, and a held state reads the same.
  moved-IsKept :
      (ts : ℕ) (p : Pin) (db : Db env) (inner : Storage env) (mts : List MemTable) (mt : MemTable)
      → IsPinned env ts p db
      → IsValid mt
      → All (λ (t : MemTable). OneOf t (tables p) ⊎ IsAbove ts t) mts
      → OneOf mt (tables p) ⊎ IsAbove ts mt
      → ((key : Bytes) → IsMoved env db.inner.state inner.state mts mt key ts)
      → IsKept ts p db p (record db { inner = inner })
  moved-IsKept ts p db inner mts mt k v rest last moved = (
    record {
      active = let (active, _) = moved [] in rw active k.active;
      frozen = frozen_of (moved []);
      past = k.past;
    },
    λ key.
        let (active, _) = moved key in
        get_snap-held env p p db (record db { inner = inner }) key ts refl
          (top_alike p.active db.inner.state.active.mem_table inner.state.active.mem_table key ts
            (rw active refl))
          (λ h. disk_of key h (moved key)),
  )
    where
      frozen_of :
          IsMoved env db.inner.state inner.state mts mt [] ts
          → All (λ (t : MemTable). OneOf t (tables p) ⊎ IsAbove ts t) inner.state.frozen
      frozen_of (active, inl (frozen, disk)) = rw frozen k.frozen
      frozen_of (active, inr (frozen, disk)) = rw frozen rest

      disk_of :
          (key : Bytes)
          → in_memory env p db key ts ≡ absent
          → IsMoved env db.inner.state inner.state mts mt key ts
          → search_levels env inner.state.storage.tables key ts
            ≡ search_levels env db.inner.state.storage.tables key ts
      disk_of key h (active, inl (frozen, disk)) = disk
      disk_of key h (active, inr (frozen, disk)) =
          let nothing = flushed_unseen env p db mt key ts v last h in disk ∙ rw nothing refl

  flush_oldest-none :
      (dir : Dir env) (rng : Rng) (s : Storage env)
      → split_last s.state.frozen ≡ none
      → flush_oldest env dir rng s ≡ (ok false, s)
  unfolding flush_oldest
  flush_oldest-none dir rng s e = rw (flush_oldest, e) refl

  flush-IsKept :
      (dir : Dir env) (rng : Rng) (ts low : ℕ) (p : Pin) (db : Db env)
      → Allowed env dir rng low flushes db
      → IsSound env db
      → IsPinned env ts p db
      → IsKept ts p db p (apply env dir rng flushes db)
  unfolding apply
  flush-IsKept dir rng ts low p db a s k = elim (Option-cases (split_last db.inner.state.frozen)) [
    | inl e ↦ rw (apply, flush_oldest-none dir rng db.inner e) (k, λ key. refl)
    | inr (q, e) ↦
        let parts = split_last-some db.inner.state.frozen q e in
        let (flushable, small) = a q.0 q.1 parts in
        let (rest, last) =
          split_last-All (λ (t : MemTable). OneOf t (tables p) ⊎ IsAbove ts t) db.inner.state.frozen
            q e k.frozen in
        moved-IsKept ts p db (flush_oldest env dir rng db.inner).1 q.0 q.1 k flushable.is_valid rest
          last
          (λ key.
            flush_oldest-IsMoved env dir rng db.inner q.0 q.1 key ts low parts flushable small)
  ]

  pub apply-IsKept :
      (dir : Dir env) (rng : Rng) (ts low : ℕ) (e : Event) (p : Pin) (db : Db env)
      → Allowed env dir rng low e db
      → IsSound env db
      → IsPinned env ts p db
      → IsKept ts p db (keep env dir rng e db p) (apply env dir rng e db)
  unfolding keep
  apply-IsKept dir rng ts low (commits tx_id read_ts buffer) p db a s k =
      commit-IsKept dir rng ts tx_id read_ts buffer p db a s k
  apply-IsKept dir rng ts low begins p db a s k =
      unfold apply Oracle.begin held in
      (record { active = k.active; frozen = k.frozen; past = k.past }, λ key. refl)
  apply-IsKept dir rng ts low (ends read_ts) p db a s k =
      unfold apply Oracle.end held in
      (record { active = k.active; frozen = k.frozen; past = k.past }, λ key. refl)
  apply-IsKept dir rng ts low numbers p db a s k =
      unfold apply Oracle.next_tx_id held in
      (record { active = k.active; frozen = k.frozen; past = k.past }, λ key. refl)
  apply-IsKept dir rng ts low freezes p db a s k = unfold keep in freeze-IsKept dir rng ts p db k
  apply-IsKept dir rng ts low flushes p db a s k = flush-IsKept dir rng ts low p db a s k
