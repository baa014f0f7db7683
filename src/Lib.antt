-- ===== src/Lib.antt =====
-- lowdb, a key-value store on a log-structured merge tree.
--
-- A write is appended to a write-ahead log and inserted into a memory table; a full memory table is
-- frozen and flushed to tables on disk, which are merged by compaction. Every write carries a sequence
-- number, and a reader sees the newest version up to the number at which it reads.
--
-- The modules, and the code they are about:
--   Prelude, Prelude.*     names and lemmas that the other modules share
--   Common.*               common/src: keys and their order, values, lookups, errors
--   Env                    what the code takes from tokio, the standard library and crc32fast; a parameter
--   Env.Memory             a concrete environment for the tests
--   Wal, Wal.Writer        wal/src/lib.rs and wal/src/writer.rs: commands and how they are appended
--   Wal.Reader             wal/src/reader.rs: `WalReader::next`
--   Memtable.SkipList      memtable/src/list.rs and memtable/src/list/node.rs: the list on its heap
--   Memtable.Sorted        the sorted list of entries that a skip list stands for
--   Memtable.Table         memtable/src/lib.rs: `MemTable`
--   Storage                storage/src/lib.rs: `Storage::set_batch`, on the log and the memory table
--   Storage.Disk           storage/src/storage.rs, storage/src/tables.rs: the tables on disk in their levels
--   Storage.Levels         storage/src/state.rs and the rest of storage/src/lib.rs: the layers that a read
--                          asks in turn, freezing and flushing
--   Storage.LogDir         storage/src/wal.rs: the directory of the logs
--   Storage.Restore        storage/src/wal.rs: `restore_tables`
--   Transaction.Oracle     transaction/src/oracle.rs: snapshots and commits
--   Transaction.Session    transaction/src/lib.rs and transaction/src/snapshot.rs, and the end of a commit
--   Sstable.Encode         sstable/src/encode.rs: entries in the buffer of a block
--   Sstable.Cursor         sstable/src/cursor.rs: reading a block
--   Sstable.Footer         sstable/src/footer.rs
--   Sstable.Bloom          sstable/src/bloom.rs
--   Sstable.Index          sstable/src/index.rs and sstable/src/key.rs
--   Sstable.Table          sstable/src/table.rs: a lookup in a table
--   Sstable.Meta           sstable/src/meta.rs: reading the meta data of a table
--   Sstable.Writer         sstable/src/writer.rs
--   Sstable.Scan.*         sstable/src/scan.rs and sstable/src/scan: scans, their merge, compaction
--   Transaction.Commits    the abstract store of versions: the commits, and what a read of them returns
--   Engine                 engine/src/lib.rs
--   Engine.Restart         `DB::open` behind a crash, on the log that is left
--   Engine.Events          the steps of all tasks on a database, in any order
--   Engine.Events.Pinned   what the pointers of a snapshot reach while others go on
-- The children of a component hold its theorems, and its Examples the tests.
--
-- How the code is read. A `String` is the list of its UTF-8 bytes, and machine words are natural numbers
-- with their bounds as hypotheses. An asynchronous function that holds a lock is one step. An action on a
-- file is a function from the buffered file to its result and the file afterwards. A pointer of the skip
-- list is an index into a heap of nodes; a loop along the nodes runs on fuel, one round more than there
-- are nodes, and the theorems on well-formed lists hold with it, so it is enough.
-- Replaying a log runs on one round more than the log has bytes, as each command takes a byte at least,
-- and Storage.Restore.Fuel shows that this is enough for every log. A lookup in a block runs on one round
-- more than the block has bytes; flushing all frozen tables on one more than there are, each round taking
-- one; reading an index on its length; and a compaction on fuel that is above the number of entries.
-- The skip list is read
-- as one thread runs it; the state of the random generator stands in the list, and the theorems hold for
-- each such state.
--
-- The oracle's state changes one lock holder at a time; Transaction.Oracle.Consistent has the steps, beside
-- a history of all commits that the program itself does not keep.
--
-- How the parts meet. `Engine.set` is a commit of the oracle, which writes a batch to the log and the
-- memory table of the storage and may freeze the table; a flush writes the oldest frozen table with the
-- table writer, newest version of each key only, and puts it in front of level 0; `Engine.get` asks the
-- layers in turn, and a table on disk by its key bounds, its filter and its index.
--
-- A map of the standard library or of dashmap is a list in the order in which the code reads it, and the
-- heap of the merge a list in the order in which it is popped. A directory is the list of its files. A
-- state that a transaction holds by pointers is an argument of its reads; Engine.Events.Pinned follows the
-- pointers: the memory tables stay, the one that was active is shared with later commits until it is
-- frozen, and the disk is shared with all.
--
-- Engine.Events takes the tasks apart into the steps that a lock makes indivisible: a commit, the begin and
-- end of a snapshot, a freeze, a flush of one table. An interleaving is a list of such events, and the
-- theorems there hold for every list. A flush is one step there, although the code lets commits go on
-- between the writing of the table and its removal from the list; the notices between the tasks are left out.
--
-- Not modelled: creating files (but for the empty log that a reader makes), naming, syncing and removing
-- them; the tasks that run in the background, their waits and the notices between them; and what the
-- helpers of the tests do.
pub mod Prelude
pub mod Common
pub mod Env
pub mod Wal
pub mod Memtable
pub mod Storage
pub mod Transaction
pub mod Sstable
pub mod Engine
