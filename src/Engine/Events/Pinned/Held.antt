-- ===== src/Engine/Events/Pinned/Held.antt =====
-- What a state that is held answers.
use lowdb.Prelude.{
  ℕ, ◌<◌, ◌≡◌, refl, ap, ◌∙◌, ◌⊎◌, inl, inr, Bool, true, false, leb, Option, none, some, List, [],
  ◌∷◌, All, OneOf, arith, if◌then◌else◌,
}
use lowdb.Prelude.Bytes.{Bytes}
use lowdb.Common.Value.{Value}
use lowdb.Common.Lookup.{Lookup, absent}
use lowdb.Env.{Env}
use lowdb.Memtable.Table
use lowdb.Memtable.Table.{MemTable, put_all}
use lowdb.Memtable.Table.Below.{IsBelow}
use lowdb.Memtable.Table.Reads.{IsValid, iter-put_all}
use lowdb.Sstable.Table.Layout.{Entry}
use lowdb.Storage.Disk
use lowdb.Storage.Disk.{search_levels}
use lowdb.Storage.Levels.{get_frozen, get_snap}
use lowdb.Storage.Levels.Freeze.{or_lookup}
use lowdb.Storage.Levels.Flush.{flushed_says}
use lowdb.Transaction.Oracle.{versions}
use lowdb.Engine.{Db}
use lowdb.Engine.Events.Sound.{All-insert_versions}
use lowdb.Engine.Events.Refines.{get_snap-put_all}
use lowdb.Engine.Events.Pinned.{Pin, tables, pin, top, held}
use lowdb.Engine.Events.Pinned.Absent.{IsAbove, flushed-absent, flushed-IsAbove, get_frozen-absent}

module _ (env : Env) where
  -- Every table in memory that is not pinned has nothing for the snapshot.
  pub record IsPinned (ts : ℕ) (p : Pin) (db : Db env) : Type 0 where
    pub active : (p.active ≡ none) ⊎ IsAbove ts db.inner.state.active.mem_table
    pub frozen : All (λ (t : MemTable). OneOf t (tables p) ⊎ IsAbove ts t) db.inner.state.frozen
    pub past : ts < db.oracle.next_seq

  OneOf-All :
      (ts : ℕ) (all rest : List MemTable)
      → ((t : MemTable) → OneOf t rest → OneOf t all)
      → All (λ (t : MemTable). OneOf t all ⊎ IsAbove ts t) rest
  OneOf-All ts all [] within = tt
  OneOf-All ts all (t ∷ rest) within =
      (inl (within t (inl refl)), OneOf-All ts all rest (λ x m. within x (inr m)))

  pub pin-IsPinned : (ts : ℕ) (db : Db env) → ts < db.oracle.next_seq → IsPinned ts (pin env db) db
  pin-IsPinned ts db past = record {
    active = inl refl;
    frozen = OneOf-All ts db.inner.state.frozen db.inner.state.frozen (λ t m. m);
    past = past;
  }

  -- A commit behind the snapshot changes no answer of its table.
  pub entered_unseen :
      (ts n : ℕ) (b : Bool) (kvs : List (Bytes × Value)) (t t' : MemTable) (key : Bytes)
      → ts < n
      → IsBelow n t
      → t' ≡ (if b then put_all (versions n kvs) t else t)
      → Table.get_snap t' key ts ≡ Table.get_snap t key ts
  entered_unseen ts n true kvs t t' key lt below e =
      let later : leb n ts ≡ false = ground arith in
      ap (λ x. Table.get_snap x key ts) e ∙ get_snap-put_all n kvs t key ts below ∙ rw later refl
  entered_unseen ts n false kvs t t' key lt below e = ap (λ x. Table.get_snap x key ts) e

  pub entered-IsAbove :
      (ts n : ℕ) (b : Bool) (kvs : List (Bytes × Value)) (t t' : MemTable)
      → ts < n
      → IsBelow n t
      → t' ≡ (if b then put_all (versions n kvs) t else t)
      → IsAbove ts t
      → IsAbove ts t'
  entered-IsAbove ts n true kvs t t' lt below e above =
      let (_, same) = iter-put_all (versions n kvs) t below.0 in
      rw (e, same)
        (All-insert_versions (λ (f : Entry). ts < f.0.seq) n kvs (Table.iter t) (λ k v. lt) above)
  entered-IsAbove ts n false kvs t t' lt below e above = rw e above

  -- The answer of the memory tables that are held.
  abbrev pub in_memory : Pin → Db env → Bytes → ℕ → Lookup
  in_memory p db key ts =
      or_lookup (Table.get_snap (top env p db) key ts) (get_frozen env p.frozen key ts)

  -- A held state reads the same while its tables answer the same, and the disk does where they are asked
  -- in vain.
  pub get_snap-held :
      (p p' : Pin) (db db' : Db env) (key : Bytes) (ts : ℕ)
      → p'.frozen ≡ p.frozen
      → Table.get_snap (top env p' db') key ts ≡ Table.get_snap (top env p db) key ts
      → (in_memory p db key ts ≡ absent
          → search_levels env db'.inner.state.storage.tables key ts
            ≡ search_levels env db.inner.state.storage.tables key ts)
      → get_snap env (held env p' db') key ts ≡ get_snap env (held env p db) key ts
  unfolding get_snap held Disk.get_snap
  get_snap-held p p' db db' key ts f a d =
      let middle : get_frozen env p'.frozen key ts ≡ get_frozen env p.frozen key ts = rw f refl in
      ground (arith, middle, a, d)

  -- The table that a flush took answers nothing where the held tables do not.
  pub flushed_unseen :
      (p : Pin) (db : Db env) (mt : MemTable) (key : Bytes) (ts : ℕ)
      → IsValid mt
      → OneOf mt (tables p) ⊎ IsAbove ts mt
      → in_memory p db key ts ≡ absent
      → flushed_says env mt key ts ≡ absent
  flushed_unseen p db mt key ts v (inr above) h = flushed-IsAbove env mt key ts above
  flushed_unseen p db mt key ts v (inl m) h =
      flushed-absent env mt key ts v (absent_in p.active m (ground (arith, h)) (ground (arith, h)))
    where
      absent_in :
          (a : Option MemTable)
          → OneOf mt (elim a [ none ↦ p.frozen | some t ↦ t ∷ p.frozen ])
          → ((t : MemTable) → a ≡ some t → Table.get_snap t key ts ≡ absent)
          → get_frozen env p.frozen key ts ≡ absent
          → Table.get_snap mt key ts ≡ absent
      absent_in none m active frozen = get_frozen-absent env p.frozen mt key ts frozen m
      absent_in (some t) (inl e) active frozen = rw e (active t refl)
      absent_in (some t) (inr m) active frozen = get_frozen-absent env p.frozen mt key ts frozen m
