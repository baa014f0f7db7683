-- ===== src/Storage/LogDir.antt =====
-- `Wal` and the functions on its directory (storage/src/wal.rs). The directory is the list of its files,
-- each with its name; `show` is `format!("{}", id)`.
use lowdb.Prelude.{ℕ, ◌+◌, ◌%◌, ◌^◌, Option, none, some, List, [], ◌∷◌, ◌++◌, leb, if◌then◌else◌}
use lowdb.Prelude.Bytes.{Bytes}
use lowdb.Common.Key.{same}
use lowdb.Common.Error.{DbResult}
use lowdb.Env.{Env}
use lowdb.Memtable.SkipList.{Rng}
use lowdb.Storage.Restore.{WalReader, Restored, restore_tables}

-- the names and contents of files
abbrev pub Files : Type 0
Files = List (Bytes × Bytes)

-- `sort_unstable`
unfoldable pub insert_id : ℕ → List ℕ → List ℕ
insert_id n [] = n ∷ []
insert_id n (m ∷ ms) = if leb n m then n ∷ m ∷ ms else m ∷ insert_id n ms

unfoldable pub sort_ids : List ℕ → List ℕ
sort_ids [] = []
sort_ids (n ∷ ns) = insert_id n (sort_ids ns)

unfoldable pub reverse : List ℕ → List ℕ
reverse [] = []
reverse (n ∷ ns) = reverse ns ++ n ∷ []

-- `last().copied().unwrap_or(0)`
unfoldable pub last_or_zero : List ℕ → ℕ
last_or_zero [] = 0
last_or_zero (n ∷ []) = n
last_or_zero (n ∷ m ∷ ms) = last_or_zero (m ∷ ms)

unfoldable pub find_file : Bytes → Files → Option Bytes
find_file name [] = none
find_file name ((n, content) ∷ fs) =
    let rest = find_file name fs in if same n name then some content else rest

module _ (env : Env) where
  -- the loop of `wal_ids`
  unfoldable pub parsed_ids : Files → List ℕ
  parsed_ids [] = []
  parsed_ids ((name, content) ∷ fs) =
      let rest = parsed_ids fs in elim (env.parse_u64 name) [ none ↦ rest | some id ↦ id ∷ rest ]

  unfoldable pub wal_ids : Files → List ℕ
  wal_ids dir = sort_ids (parsed_ids dir)

  unfoldable pub latest_id : Files → ℕ
  latest_id dir = last_or_zero (wal_ids dir)

  -- the number of the next log, in `Wal::new`
  unfoldable pub next_wal_id : Files → ℕ
  next_wal_id dir = (latest_id dir + 1) % 2 ^ 64

  module _ (show : ℕ → Bytes) where
    -- `WalReader::open`, which creates a file that is missing. Its name is that of the number, so it is
    -- missing where the name that was parsed is another numeral.
    unfoldable pub open_reader : ℕ → Files → WalReader
    open_reader id dir = elim (find_file (show id) dir) [
      | none ↦ record { id = show id; unread = [] }
      | some content ↦ record { id = show id; unread = content }
    ]

    unfoldable pub open_readers : List ℕ → Files → List WalReader
    open_readers [] dir = []
    open_readers (id ∷ ids) dir = open_reader id dir ∷ open_readers ids dir

    -- the newest log first
    unfoldable pub load_wals : Files → List WalReader
    load_wals dir = open_readers (reverse (wal_ids dir)) dir

    unfoldable pub restore : Rng → Files → DbResult Restored
    restore rng dir = restore_tables env rng (load_wals dir)
