-- ===== src/Transaction/Commits.antt =====
-- An abstract store of versions: the commits with their numbers and write sets, and what a read of it at a
-- snapshot is to return.
use lowdb.Prelude.{
  ℕ, ◌≡◌, ◌<◌, refl, ◌∙◌, All, All-imp, ◌&&◌, not, leb, Option, none, some, List, [], ◌∷◌, arith,
  Ordering, if◌then◌else◌,
}
use lowdb.Prelude.Bytes.{Bytes}
use lowdb.Common.Key.{Key, same, cmp_str}
use lowdb.Common.Key.Order.{eq_of_cmp_str}
use lowdb.Common.Value.{Value, set, delete}
use lowdb.Common.Lookup.{Lookup, found, deleted}
use lowdb.Common.Error.{DbResult, ok}
use lowdb.Memtable.Sorted.{lookup_entry, has_key, insert_entry}
use lowdb.Memtable.Sorted.Merge.{insert_all}
use lowdb.Memtable.Sorted.Newest.{
  UpTo, insert_entry-UpTo, lookup_entry-insert_newest, has_key-insert_version, has_key-above,
}
use lowdb.Memtable.Table.Reads.{says}
use lowdb.Transaction.Oracle.{versions}

-- The commits, the newest first.
abbrev pub Commits : Type 0
Commits = List (ℕ × List (Bytes × Value))

-- What a write set says of a key.
unfoldable pub written : Bytes → List (Bytes × Value) → Option Value
written key [] = none
written key ((k, v) ∷ kvs) = let rest = written key kvs in if same k key then some v else rest

-- What one commit says of a key, or an older answer.
abbrev pub over : Option Value → Lookup → Lookup
over none rest = rest
over (some (set v)) rest = found v
over (some delete) rest = deleted

-- The newest commit up to the snapshot that has the key answers, and below the first commit the store that
-- the commits were made to.
abbrev pub answer : Option Value → DbResult (Option Bytes) → DbResult (Option Bytes)
answer none rest = rest
answer (some (set v)) rest = ok (some v)
answer (some delete) rest = ok none

unfoldable pub read : Commits → Bytes → ℕ → DbResult (Option Bytes) → DbResult (Option Bytes)
read [] key snapshot below = below
read ((n, kvs) ∷ h) key snapshot below =
    let rest = read h key snapshot below in
    if leb n snapshot then answer (written key kvs) rest else rest

-- What a lookup finds behind the entries of a commit: what its write set says where the snapshot sees the
-- commit and has no such version yet, and what it found before otherwise.
abbrev over_if : Bytes → ℕ → ℕ → List (Bytes × Value) → List (Key × Value) → Lookup
over_if key s n kvs es =
    if leb n s && not (has_key (record { user = key; seq = n }) es)
    then over (written key kvs) (says (lookup_entry key s es))
    else says (lookup_entry key s es)

says-over : (k : Key) (v : Value) (l : Lookup) → says (some (k, v)) ≡ over (some v) l
says-over k (set x) l = refl
says-over k delete l = refl

lookup_entry-versions :
    (key : Bytes) (s n : ℕ) (kvs : List (Bytes × Value)) (es : List (Key × Value))
    → UpTo n es
    → says (lookup_entry key s (insert_all (versions n kvs) es)) ≡ over_if key s n kvs es
unfolding insert_all versions written
lookup_entry-versions key s n [] es h = ground arith
lookup_entry-versions key s n ((j, v) ∷ kvs) es h =
    let k : Key = record { user = j; seq = n } in
    let rest =
      lookup_entry-versions key s n kvs (insert_entry k v es) (insert_entry-UpTo j n v es h) in
    let here = lookup_entry-insert_newest key j s n v es h in
    let there = has_key-insert_version key j n v es in
    let alike : cmp_str j key ≡ Ordering.eq
        → has_key k es ≡ has_key (record { user = key; seq = n }) es =
      λ e. rw (eq_of_cmp_str j key e) refl in
    let told : says (some (k, v)) ≡ over (some v) (says (lookup_entry key s es)) =
      says-over k v (says (lookup_entry key s es)) in
    rest ∙ rw (there, here) (ground (arith, alike, told))

-- Entries of a commit with a number above all others: a lookup finds what its write set says where the
-- snapshot sees it, and what it found before otherwise.
pub lookup_entry-commit :
    (key : Bytes) (s n : ℕ) (kvs : List (Bytes × Value)) (es : List (Key × Value))
    → All (λ (e : Key × Value). e.0.seq < n) es
    → says (lookup_entry key s (insert_all (versions n kvs) es)) ≡ (
        if leb n s
        then over (written key kvs) (says (lookup_entry key s es))
        else says (lookup_entry key s es))
lookup_entry-commit key s n kvs es h =
    let none_there = has_key-above key n es h in
    lookup_entry-versions key s n kvs es (All-imp _ _ (λ e b. omega arith) es h)
    ∙ rw (over_if, none_there) (ground arith)
