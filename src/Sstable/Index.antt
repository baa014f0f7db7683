-- ===== src/Sstable/Index.antt =====
-- sstable/src/index.rs and sstable/src/key.rs, and the reading of values in sstable/src/encode.rs.
use lowdb.Prelude.{ℕ, ◌+◌, List, [], ◌∷◌, ◌==◌, if◌then◌else◌}
use lowdb.Prelude.Bytes.{Bytes}
use lowdb.Common.Key
use lowdb.Common.Key.{Key}
use lowdb.Common.Value.{Value, set, delete}
use lowdb.Common.Error.{DbResult, ok, err, ◌>>=◌}
use lowdb.Env.{Env}
use lowdb.Sstable.Encode.{encode_key, put_u16, put_u64}

pub record IndexedKey : Type 0 where
  pub key : Key
  pub block_off : ℕ
  pub block_len : ℕ

unfoldable pub index_disk_size : IndexedKey → ℕ
index_disk_size i = Key.disk_size i.key + 8 + 2

unfoldable pub list_disk_size : List IndexedKey → ℕ
list_disk_size [] = 0
list_disk_size (i ∷ is) = index_disk_size i + list_disk_size is

-- `IndexedKey::write_to_buf`
unfoldable pub write_index : IndexedKey → Bytes → DbResult (Unit {0}) × Bytes
write_index i buf =
    let (r, buf') = encode_key i.key buf in
    elim r [
      | ok _ ↦ (ok tt, put_u16 (put_u64 buf' i.block_off) i.block_len)
      | err e ↦ (err e, buf')
    ]

module _ (env : Env) where
  -- `Key::read`
  unfoldable pub stream_key : Bytes → DbResult (Key × Bytes)
  stream_key r = do
    (len, r) ← env.read_uint 2 r
    (buf, r) ← env.read_exact len r
    (seq, r) ← env.read_uint 8 r
    ok (record { user = env.from_utf8_lossy buf; seq = seq }, r)

  -- `Value::read`
  unfoldable pub stream_value : Bytes → DbResult (Value × Bytes)
  stream_value r = do
    (len, r) ← env.read_uint 2 r
    if len == 0
        then ok (delete, r)
        else do (value, r) ← env.read_exact len r; ok (set (env.from_utf8_lossy value), r)

  -- `IndexedKey::read`
  unfoldable pub stream_index : Bytes → DbResult (IndexedKey × Bytes)
  stream_index r = do
    (key, r) ← stream_key r
    (block_off, r) ← env.read_uint 8 r
    (block_len, r) ← env.read_uint 2 r
    ok (record { key = key; block_off = block_off; block_len = block_len }, r)
