-- ===== src/Storage/Disk/Loaded.antt =====
-- The tables that `DiskStorage::load` reads (storage/src/storage.rs).
use lowdb.Prelude.{
  ℕ, ◌≤◌, ◌≡◌, max, compare, Ordering-cases, inl, inr, List, [], ◌∷◌, All, All-imp, arith, subst,
}
use lowdb.Prelude.Bytes.{Bytes}
use lowdb.Common.Error.{ok, bind_inv}
use lowdb.Env.{Env}
use lowdb.Storage.Disk.{
  SsTable, DiskStorage, Named, push, update_level, load_files, load, open_table, sort_files,
  named_files,
}

-- of all tables on all levels
abbrev pub AllTables : (SsTable → Type 0) → List (ℕ × List SsTable) → Type 0
AllTables P ls = All (λ (l : ℕ × List SsTable). All P l.1) ls

pub AllTables-imp :
    (P Q : SsTable → Type 0) (ls : List (ℕ × List SsTable))
    → ((t : SsTable) → P t → Q t)
    → AllTables P ls
    → AllTables Q ls
AllTables-imp P Q ls f h = All-imp _ _ (λ l all. All-imp P Q f l.1 all) ls h

push-All :
    (P : SsTable → Type 0) (t : SsTable) (ts : List SsTable) → P t → All P ts → All P (push t ts)
push-All P t [] p h = (p, tt)
push-All P t (x ∷ ts) p (h, hs) = (h, push-All P t ts p hs)

update_level-AllTables :
    (P : SsTable → Type 0) (level : ℕ) (t : SsTable) (ls : List (ℕ × List SsTable))
    → P t
    → AllTables P ls
    → AllTables P (update_level level (push t) ls)
unfolding update_level
update_level-AllTables P level t [] p h = ((p, tt), tt)
update_level-AllTables P level t ((l, ts) ∷ ls) p (h, hs) =
    elim (Ordering-cases (compare level l)) [
      | inl e ↦ rw (update_level, e) ((p, tt), (h, hs))
      | inr (inl e) ↦ rw (update_level, e) (push-All P t ts p h, hs)
      | inr (inr e) ↦ rw (update_level, e) (h, update_level-AllTables P level t ls p hs)
    ]

-- No table has a version above this number, by its footer.
abbrev UpTo : ℕ → List (ℕ × List SsTable) → Type 0
UpTo n ls = AllTables (λ t. t.meta.footer.largest_seq ≤ n) ls

module _ (env : Env) where
  load_files-UpTo :
      (fs : List Named) (d done : DiskStorage)
      → load_files env fs d ≡ ok done
      → UpTo d.max_seq d.tables
      → UpTo done.max_seq done.tables
  unfolding load_files
  load_files-UpTo [] d done e h =
      let here : d ≡ done = ground (arith, e) in
      subst (λ (x : DiskStorage). UpTo x.max_seq x.tables) here h
  load_files-UpTo (f ∷ fs) d done e h =
      let (t, _, rest) = bind_inv (open_table env f.content) _ done e in
      let n = max d.max_seq t.meta.footer.largest_seq in
      load_files-UpTo fs _ done rest (
        update_level-AllTables (λ x. x.meta.footer.largest_seq ≤ n) f.level t d.tables (omega arith)
          (AllTables-imp _ _ d.tables (λ x le. omega arith) h))

  -- The number that `load` returns is at or above those of all its tables.
  pub load-AllTables :
      (dir : List (Bytes × Bytes)) (d : DiskStorage)
      → load env dir ≡ ok d
      → AllTables (λ t. t.meta.footer.largest_seq ≤ d.max_seq) d.tables
  unfolding load
  load-AllTables dir d e = load_files-UpTo (sort_files (named_files env dir)) _ d e tt
