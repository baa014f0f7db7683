-- ===== src/Storage/Levels/Placed.antt =====
-- Placing a table in front of level 0, and taking the oldest of the frozen tables.
use lowdb.Prelude.{ℕ, ◌≡◌, refl, ap, ◌∙◌, Bool, Option, none, some, List, [], ◌∷◌, ◌++◌, arith}
use lowdb.Prelude.Bytes.{Bytes}
use lowdb.Common.Lookup.{Lookup, found, deleted, absent}
use lowdb.Common.Error.{DbResult, ok, err}
use lowdb.Env.{Env}
use lowdb.Memtable.Table.{MemTable}
use lowdb.Sstable.Table.{SsTableMeta, get_table}
use lowdb.Storage.Disk.{
  DiskStorage, SsTable, update_level, insert_front, place_table, search_tables, search_levels,
}
use lowdb.Storage.Levels.{split_last}

pub split_last-none : (mts : List MemTable) → split_last mts ≡ none → mts ≡ []
unfolding split_last
split_last-none [] h = refl
split_last-none (mt ∷ mts) h = ground (arith, h)

pub split_last-some :
    (mts : List MemTable) (p : List MemTable × MemTable)
    → split_last mts ≡ some p
    → mts ≡ p.0 ++ p.1 ∷ []
unfolding split_last
split_last-some [] p h = ground (arith, h)
split_last-some (mt ∷ mts) p h = last_of (split_last mts) refl (split_last-some mts) h
  where
    last_of :
        (o : Option (List MemTable × MemTable))
        → split_last mts ≡ o
        → ((q : List MemTable × MemTable) → split_last mts ≡ some q → mts ≡ q.0 ++ q.1 ∷ [])
        → (elim o [ none ↦ some ([], mt) | some q ↦ some (mt ∷ q.0, q.1) ]) ≡ some p
        → mt ∷ mts ≡ p.0 ++ p.1 ∷ []
    last_of none e before h = let here : p ≡ ([], mt) = cc in rw (here, split_last-none mts e) refl
    last_of (some q) e before h =
        let here : p ≡ (mt ∷ q.0, q.1) = cc in rw here (ap (◌∷◌ mt) (before q e))

pub split_last-append :
    (mts : List MemTable) (mt : MemTable) → split_last (mts ++ mt ∷ []) ≡ some (mts, mt)
unfolding split_last
split_last-append [] mt = refl
split_last-append (x ∷ mts) mt = rw (split_last, split_last-append mts mt) refl

module _ (env : Env) where
  open env use {stored}

  search_tables_front :
      (t : SsTable) (ts : List SsTable) (key : Bytes) (seq : ℕ) (lookup : Lookup)
      → get_table env t.file t.meta key seq ≡ ok lookup
      → search_tables env (t ∷ ts) key seq ≡ elim lookup [
        | found v ↦ ok (found v)
        | deleted ↦ ok deleted
        | absent ↦ search_tables env ts key seq
      ]
  unfolding search_tables
  search_tables_front t ts key seq lookup h = rw (search_tables, h) refl

  -- A new table in front of level 0 is asked first.
  search_levels_front :
      (t : SsTable) (ls : List (ℕ × List SsTable)) (key : Bytes) (seq : ℕ) (lookup : Lookup)
      → get_table env t.file t.meta key seq ≡ ok lookup
      → search_levels env (update_level 0 (insert_front t) ls) key seq ≡ elim lookup [
        | found v ↦ ok (found v)
        | deleted ↦ ok deleted
        | absent ↦ search_levels env ls key seq
      ]
  unfolding search_levels update_level search_tables
  search_levels_front t [] key seq lookup h = ground (arith, h)
  search_levels_front t ((l, ts) ∷ ls) key seq lookup h = ground (arith, h)

  -- The answer of a disk behind a table that was asked first.
  abbrev pub first_says : Lookup → DbResult Lookup → DbResult Lookup
  first_says (found v) rest = ok (found v)
  first_says deleted rest = ok deleted
  first_says absent rest = rest

  pub search-place_table :
      (finished : DbResult (Option SsTableMeta)) (file : env.BufWriter) (d : DiskStorage) (b : Bool)
      (key : Bytes) (seq : ℕ) (lookup : Lookup)
      → (place_table env finished file d).0 ≡ ok b
      → (finished ≡ ok none → lookup ≡ absent)
      → ((meta : SsTableMeta)
          → finished ≡ ok (some meta)
          → get_table env (stored file) meta key seq ≡ ok lookup)
      → search_levels env (place_table env finished file d).1.tables key seq
        ≡ first_says lookup (search_levels env d.tables key seq)
  unfolding place_table
  search-place_table (err e) file d b key seq lookup h nothing table = absurd (cc)
  search-place_table (ok none) file d b key seq lookup h nothing table = rw (nothing refl) refl
  search-place_table (ok (some meta)) file d b key seq lookup h nothing table =
      search_levels_front (record { file = stored file; meta = meta }) d.tables key seq lookup
        (table meta refl)
      ∙ same_answer lookup (search_levels env d.tables key seq)
    where
      same_answer :
          (lookup : Lookup) (rest : DbResult Lookup)
          → (elim lookup [ found v ↦ ok (found v) | deleted ↦ ok deleted | absent ↦ rest ])
            ≡ first_says lookup rest
      same_answer (found v) rest = refl
      same_answer deleted rest = refl
      same_answer absent rest = refl
