-- ===== src/Sstable/Table.antt =====
-- sstable/src/table.rs and the fields of `SSTableMeta` (sstable/src/meta.rs). A file is its bytes. The
-- index that `partition_point` searches is sorted, as that function asks.
pub mod Layout
pub mod Reads
use lowdb.Prelude.{
  ℕ, zero, suc, ◌+◌, ◌≤◌, Bool, true, false, not, ◌||◌, Ordering, Option, none, some, List, [], ◌∷◌,
  length, get_elem?, take, drop, leb, if◌then◌else◌,
}
use lowdb.Prelude.Bytes.{Bytes}
use lowdb.Common.Key.{Key, cmp, cmp_str, same, is_less, is_greater}
use lowdb.Common.Value.{Value, set, delete}
use lowdb.Common.Lookup.{Lookup, found, deleted, absent}
use lowdb.Common.Error.{DbResult, ok, err, io, unexpected_eof, ◌>>=◌}
use lowdb.Env.{Env}
use lowdb.Sstable.Bloom.{may_contain}
use lowdb.Sstable.Cursor.{Cursor, open_block, next_entry}
use lowdb.Sstable.Footer.{Footer}
use lowdb.Sstable.Index.{IndexedKey}

pub record SsTableMeta : Type 0 where
  pub file_size : ℕ
  pub bloom : Bytes
  pub first_key : Key
  pub last_key : Key
  pub footer : Footer
  pub index : List IndexedKey

-- `read_exact_at`
unfoldable pub read_exact_at : Bytes → ℕ → ℕ → DbResult Bytes
read_exact_at file off len =
    if leb (off + len) (length file) then ok (take len (drop off file)) else err (io unexpected_eof)

-- `partition_point(|h| h.key < target)`
unfoldable pub partition_point : Key → List IndexedKey → ℕ
partition_point target [] = 0
partition_point target (h ∷ hs) =
    let rest = partition_point target hs in if is_less (cmp h.key target) then suc rest else 0

unfoldable pub read_block : Bytes → IndexedKey → DbResult Bytes
read_block file h = read_exact_at file h.block_off h.block_len

abbrev pub value_lookup : Value → Lookup
value_lookup (set b) = found b
value_lookup delete = deleted

module _ (env : Env) where
  -- `while let Some(entry) = c.next_entry()?`
  unfoldable pub scan_block : ℕ → Cursor → Key → DbResult Lookup
  scan_block zero c target = ok absent
  scan_block (suc n) c target = next_entry env c >>= λ step. elim step.0 [
    | none ↦ ok absent
    | some e ↦
        let rest = scan_block n step.1 target in
        if is_less (cmp e.0 target)
        then rest
        else ok (if same e.0.user target.user then value_lookup e.1 else absent)
  ]

  unfoldable pub get_from_block : Bytes → Option IndexedKey → Key → DbResult Lookup
  get_from_block file none target = ok absent
  get_from_block file (some h) target = do
    block ← read_block file h
    c ← open_block env block
    scan_block (suc (length block)) c target

  unfoldable pub get_table : Bytes → SsTableMeta → Bytes → ℕ → DbResult Lookup
  get_table file meta user snapshot =
      if is_less (cmp_str user meta.first_key.user) || is_greater (cmp_str user meta.last_key.user)
      then ok absent
      else if not (may_contain meta.bloom user)
      then ok absent
      else let target : Key = record { user = user; seq = snapshot } in
        get_from_block file (get_elem? meta.index (partition_point target meta.index)) target
