-- ===== src/Engine/Examples/Restarts.antt =====
-- An application of the theorem on opening a database again.
use lowdb.Prelude.{ℕ, ◌+◌, ◌%◌, ◌<◌, ◌^◌, ◌≡◌, refl, sym, subst, ◌∙◌, List, [], ◌∷◌, All, arith}
use lowdb.Prelude.Bytes.{Bytes}
use lowdb.Common.Value.{set, delete}
use lowdb.Common.Error.{DbResult, ok, err}
use lowdb.Env.Memory.{memory}
use lowdb.Wal.Reader.RoundTrip.{Readable}
use lowdb.Memtable.Table
use lowdb.Storage.{State, set_batches}
use lowdb.Storage.Levels
use lowdb.Storage.LogDir.{restore}
use lowdb.Storage.Recovery.{IsReadable}
use lowdb.Storage.Restore.{Restored}
use lowdb.Storage.Restore.Committed.{Batch, Tail, uncommitted, tail_commands}
use lowdb.Engine.{Db, get, open_db}
use lowdb.Engine.Restart.OneLog.{no_tables}
use lowdb.Engine.Restart.{left_behind, get-open_db}
use lowdb.Engine.Examples.{dir, rng, key}

abbrev fresh : State memory
fresh = record { wal = ([], []); mem_table = Table.new 0 rng }

abbrev batches : List Batch
batches =
    (7, (key 97 1, set (120 ∷ [])) ∷ (key 98 1, set (121 ∷ [])) ∷ [])
    ∷ (8, (key 97 2, delete) ∷ [])
    ∷ []

abbrev lost : Tail
lost = uncommitted 9 ((key 98 3, delete) ∷ [])

abbrev show : ℕ → Bytes
show id = (48 + id) ∷ []

abbrev or_empty : DbResult Restored → Restored
or_empty (ok r) = r
or_empty (err e) = record { tables = []; max_seq = 0; max_tx_id = 0 }

abbrev restored : Restored
restored = or_empty (restore memory show rng (left_behind memory dir rng show 0 batches lost fresh))

batches-Readable : All (IsReadable memory) batches
batches-Readable = (
  (
    omega arith,
    omega arith,
    (
      (omega arith, refl, omega arith, (omega arith, omega arith, refl)),
      ((omega arith, refl, omega arith, (omega arith, omega arith, refl)), tt),
    ),
  ),
  ((omega arith, omega arith, ((omega arith, refl, omega arith, tt), tt)), tt),
)

lost-Readable : All (Readable memory) (tail_commands lost)
unfolding tail_commands
lost-Readable =
    (omega arith, ((omega arith, omega arith, ((omega arith, refl, omega arith, tt), tt)), tt))

writes : (set_batches memory batches fresh).0 ≡ ok tt
unfolding lowdb.Storage.set_batch lowdb.Storage.set_batches lowdb.Common.Error.try_u16
    lowdb.Wal.Writer.◌>>◌ lowdb.Wal.Writer.lift lowdb.Wal.Writer.write_uint
    lowdb.Wal.Writer.append_tx_begin lowdb.Wal.Writer.append_tx_commit lowdb.Wal.Writer.append_value
    lowdb.Wal.Writer.append_key_value lowdb.Wal.Writer.append_pairs lowdb.Wal.Writer.append_batch
    lowdb.Wal.Writer.append_cmd lowdb.Wal.Writer.append lowdb.Wal.Writer.append_batch_sync
writes = refl

restores :
    restore memory show rng (left_behind memory dir rng show 0 batches lost fresh) ≡ ok restored
unfolding lowdb.Storage.set_batch lowdb.Storage.set_batches lowdb.Common.Error.try_u16
    lowdb.Common.Key.cmp_str lowdb.Prelude.Assoc.get lowdb.Prelude.Assoc.insert
    lowdb.Prelude.Assoc.remove lowdb.Prelude.Bytes.to_be lowdb.Prelude.Bytes.from_be
    lowdb.Storage.LogDir.insert_id lowdb.Storage.LogDir.sort_ids lowdb.Storage.LogDir.reverse
    lowdb.Storage.LogDir.find_file lowdb.Storage.LogDir.parsed_ids lowdb.Storage.LogDir.wal_ids
    lowdb.Storage.LogDir.open_reader lowdb.Storage.LogDir.open_readers
    lowdb.Storage.LogDir.load_wals lowdb.Storage.LogDir.restore lowdb.Storage.Restore.apply_cmd
    lowdb.Storage.Restore.replay lowdb.Storage.Restore.replay_log lowdb.Storage.Restore.restore_from
    lowdb.Storage.Restore.restore_tables lowdb.Storage.Restore.Committed.tail_commands
    lowdb.Storage.Restore.Log.encode_cmds lowdb.Wal.Reader.read_str lowdb.Wal.Reader.read_key
    lowdb.Wal.Reader.read_value lowdb.Wal.Reader.read_key_value lowdb.Wal.Reader.read_pairs
    lowdb.Wal.Reader.read_cmd lowdb.Wal.Reader.next lowdb.Wal.Writer.◌>>◌ lowdb.Wal.Writer.lift
    lowdb.Wal.Writer.write_uint lowdb.Wal.Writer.append_tx_begin lowdb.Wal.Writer.append_tx_commit
    lowdb.Wal.Writer.append_value lowdb.Wal.Writer.append_key_value lowdb.Wal.Writer.append_pairs
    lowdb.Wal.Writer.append_batch lowdb.Wal.Writer.append_cmd lowdb.Wal.Writer.append
    lowdb.Wal.Writer.append_batch_sync lowdb.Wal.Writer.Encoding.value_bytes
    lowdb.Wal.Writer.Encoding.pair_bytes lowdb.Wal.Writer.Encoding.pairs_bytes
    lowdb.Wal.Writer.Encoding.encode_cmd
restores = refl

not_last : restored.max_seq + 2 < 2 ^ 64
unfolding lowdb.Storage.set_batch lowdb.Storage.set_batches lowdb.Common.Error.try_u16
    lowdb.Common.Key.cmp_str lowdb.Prelude.Assoc.get lowdb.Prelude.Assoc.insert
    lowdb.Prelude.Assoc.remove lowdb.Prelude.Bytes.to_be lowdb.Prelude.Bytes.from_be
    lowdb.Storage.LogDir.insert_id lowdb.Storage.LogDir.sort_ids lowdb.Storage.LogDir.reverse
    lowdb.Storage.LogDir.find_file lowdb.Storage.LogDir.parsed_ids lowdb.Storage.LogDir.wal_ids
    lowdb.Storage.LogDir.open_reader lowdb.Storage.LogDir.open_readers
    lowdb.Storage.LogDir.load_wals lowdb.Storage.LogDir.restore lowdb.Storage.Restore.apply_cmd
    lowdb.Storage.Restore.replay lowdb.Storage.Restore.replay_log lowdb.Storage.Restore.restore_from
    lowdb.Storage.Restore.restore_tables lowdb.Storage.Restore.Committed.tail_commands
    lowdb.Storage.Restore.Log.encode_cmds lowdb.Wal.Reader.read_str lowdb.Wal.Reader.read_key
    lowdb.Wal.Reader.read_value lowdb.Wal.Reader.read_key_value lowdb.Wal.Reader.read_pairs
    lowdb.Wal.Reader.read_cmd lowdb.Wal.Reader.next lowdb.Wal.Writer.◌>>◌ lowdb.Wal.Writer.lift
    lowdb.Wal.Writer.write_uint lowdb.Wal.Writer.append_tx_begin lowdb.Wal.Writer.append_tx_commit
    lowdb.Wal.Writer.append_value lowdb.Wal.Writer.append_key_value lowdb.Wal.Writer.append_pairs
    lowdb.Wal.Writer.append_batch lowdb.Wal.Writer.append_cmd lowdb.Wal.Writer.append
    lowdb.Wal.Writer.append_batch_sync lowdb.Wal.Writer.Encoding.value_bytes
    lowdb.Wal.Writer.Encoding.pair_bytes lowdb.Wal.Writer.Encoding.pairs_bytes
    lowdb.Wal.Writer.Encoding.encode_cmd
not_last = omega arith

ok_injective : (a b : Restored) → ok a ≡ ok b → a ≡ b
ok_injective a b e = cc

any_not_last :
    (r : Restored)
    → restore memory show rng (left_behind memory dir rng show 0 batches lost fresh) ≡ ok r
    → r.max_seq + 2 < 2 ^ 64
any_not_last r e =
    let same : restored ≡ r = ok_injective restored r (sym restores ∙ e) in
    subst (λ (x : Restored). x.max_seq + 2 < 2 ^ 64) same not_last

get-open_db_example :
    (db : Db memory) × (open_db memory dir rng show
        (left_behind memory dir rng show 0 batches lost fresh)
        []
      ≡ ok db)
    × ((key : Bytes)
        → get memory db key
          ≡ Levels.get memory
              (record {
                active = (set_batches memory batches fresh).1;
                frozen = [];
                storage = no_tables memory;
              })
              key)
get-open_db_example =
    get-open_db memory dir rng show 0 1 batches lost fresh (49 ∷ []) ([], []) batches-Readable
      lost-Readable refl refl refl refl writes any_not_last refl refl
