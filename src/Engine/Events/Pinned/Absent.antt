-- ===== src/Engine/Events/Pinned/Absent.antt =====
-- Where a memory table has no version that a snapshot may see, neither has the table it is flushed to.
use lowdb.Prelude.{
  ℕ, ◌<◌, ◌≡◌, refl, ap, sym, ◌∙◌, List, [], ◌∷◌, All, All-imp, OneOf, arith, Ordering, some, none,
  Option, inl, inr,
}
use lowdb.Prelude.Bytes.{Bytes}
use lowdb.Common.Key.{cmp, cmp_str}
use lowdb.Common.Key.Order.{eq_of_cmp_str}
use lowdb.Common.Value.{set, delete}
use lowdb.Common.Lookup.{absent}
use lowdb.Env.{Env}
use lowdb.Memtable.Sorted.{lookup_entry}
use lowdb.Memtable.Table
use lowdb.Memtable.Table.{MemTable}
use lowdb.Memtable.Table.Reads.{
  says, IsValid, NoneVisible, get_snap_lem, entries-IsAscending, lookup_entry-IsNewest,
}
use lowdb.Sstable.Table.Layout.{Entry}
use lowdb.Storage.Disk.Newest.{newest_only, newest_only-All}
use lowdb.Storage.Levels.{get_frozen}
use lowdb.Storage.Levels.Flush.{flushed_says}

-- All versions are behind a snapshot.
abbrev pub IsAbove : ℕ → MemTable → Type 0
IsAbove ts t = All (λ (e : Entry). ts < e.0.seq) (Table.iter t)

lookup_entry-NoneVisible :
    (key : Bytes) (ts : ℕ) (es : List Entry) → NoneVisible key ts es → lookup_entry key ts es ≡ none
unfolding lookup_entry cmp
lookup_entry-NoneVisible key ts [] h = refl
lookup_entry-NoneVisible key ts ((k, v) ∷ es) (h, hs) =
    let rest = lookup_entry-NoneVisible key ts es hs in
    let late : cmp_str k.user key ≡ Ordering.eq → ts < k.seq =
      λ e. h (eq_of_cmp_str k.user key e) in
    ground (arith, rest, late)

flushed-NoneVisible :
    (env : Env) (mt : MemTable) (key : Bytes) (ts : ℕ)
    → NoneVisible key ts (Table.iter mt)
    → flushed_says env mt key ts ≡ absent
flushed-NoneVisible env mt key ts h = ap says (
    lookup_entry-NoneVisible key ts (newest_only none (Table.iter mt))
      (newest_only-All (λ (e : Entry). e.0.user ≡ key → ts < e.0.seq) (Table.iter mt) none h))

says_absent : (r : Option Entry) → says r ≡ absent → r ≡ none
says_absent none h = refl
says_absent (some (k, set v)) h = absurd (cc)
says_absent (some (k, delete)) h = absurd (cc)

pub flushed-absent :
    (env : Env) (mt : MemTable) (key : Bytes) (ts : ℕ)
    → IsValid mt
    → Table.get_snap mt key ts ≡ absent
    → flushed_says env mt key ts ≡ absent
flushed-absent env mt key ts v h =
    let newest = lookup_entry-IsNewest (Table.iter mt) key ts (entries-IsAscending mt v) in
    let nothing =
      says_absent (lookup_entry key ts (Table.iter mt)) (sym (get_snap_lem mt key ts v) ∙ h) in
    flushed-NoneVisible env mt key ts (rw nothing at newest)

pub flushed-IsAbove :
    (env : Env) (mt : MemTable) (key : Bytes) (ts : ℕ)
    → IsAbove ts mt
    → flushed_says env mt key ts ≡ absent
flushed-IsAbove env mt key ts h =
    flushed-NoneVisible env mt key ts (All-imp _ _ (λ e b same. b) (Table.iter mt) h)

pub get_frozen-absent :
    (env : Env) (mts : List MemTable) (mt : MemTable) (key : Bytes) (ts : ℕ)
    → get_frozen env mts key ts ≡ absent
    → OneOf mt mts
    → Table.get_snap mt key ts ≡ absent
unfolding get_frozen
get_frozen-absent env [] mt key ts h m = elim m [ ]
get_frozen-absent env (x ∷ xs) mt key ts h (inl e) =
    let here : Table.get_snap x key ts ≡ Table.get_snap mt key ts =
      ap (λ t. Table.get_snap t key ts) (sym e) in
    ground (arith, h, here)
get_frozen-absent env (x ∷ xs) mt key ts h (inr m) =
    let rest = get_frozen-absent env xs mt key ts in ground (arith, h, m, rest)
