-- ===== src/Env.antt =====
-- What the crates call and do not implement: the buffered files of tokio, and the checked texts of the
-- standard library and the checksum of crc32fast. A theorem takes them as a parameter, with the
-- documented behaviour as laws.
pub mod Memory
use lowdb.Prelude.{ℕ, ◌^◌, ◌<◌, ◌≡◌, Bool, true, Option, [], ◌++◌, length}
use lowdb.Prelude.Bytes.{Bytes, from_be}
use lowdb.Common.Error.{DbResult, ok, err, io, unexpected_eof}

pub record Env : Type 1 where
  -- a `BufWriter<File>`: the bytes that reached the file, and the accepted ones that did not yet
  pub BufWriter : Type 0
  pub stored : BufWriter → Bytes
  pub pending : BufWriter → Bytes
  -- `write_all`, and `flush` followed by `sync_all`
  pub write_all : Bytes → BufWriter → DbResult (Unit {0}) × BufWriter
  pub flush : BufWriter → DbResult (Unit {0}) × BufWriter
  pub write_all_ok :
      (bs : Bytes) (w : BufWriter)
      → (write_all bs w).0 ≡ ok tt
      → stored (write_all bs w).1 ++ pending (write_all bs w).1 ≡ (stored w ++ pending w) ++ bs
  pub flush_ok :
      (w : BufWriter)
      → (flush w).0 ≡ ok tt
      → (stored (flush w).1 ≡ stored w ++ pending w) × (pending (flush w).1 ≡ [])
  -- A `BufReader<File>` stands for the bytes that it has not read. `read_uint n` is `read_u8`,
  -- `read_u16`, `read_u32` and `read_u64` for `n` = 1, 2, 4 and 8.
  pub read_exact : ℕ → Bytes → DbResult (Bytes × Bytes)
  pub read_uint : ℕ → Bytes → DbResult (ℕ × Bytes)
  pub read_exact_ok : (bs rest : Bytes) → read_exact (length bs) (bs ++ rest) ≡ ok (bs, rest)
  pub read_exact_eof :
      (n : ℕ) (bs : Bytes) → length bs < n → read_exact n bs ≡ err (io unexpected_eof)
  pub read_uint_ok : (bs rest : Bytes) → read_uint (length bs) (bs ++ rest) ≡ ok (from_be bs, rest)
  pub read_uint_eof :
      (n : ℕ) (bs : Bytes) → length bs < n → read_uint n bs ≡ err (io unexpected_eof)
  -- `str::from_utf8` and `String::from_utf8_lossy`
  pub is_utf8 : Bytes → Bool
  pub from_utf8_lossy : Bytes → Bytes
  pub from_utf8_lossy_valid : (bs : Bytes) → is_utf8 bs ≡ true → from_utf8_lossy bs ≡ bs
  -- `str::parse::<u64>` and `str::parse::<u32>`, with `none` for their errors
  pub parse_u64 : Bytes → Option ℕ
  pub parse_u32 : Bytes → Option ℕ
  -- `(n as f64 * 0.69) as u32`
  pub bloom_scale : ℕ → ℕ
  -- `crc32fast::hash`
  pub crc32 : Bytes → ℕ
  pub crc32_u32 : (bs : Bytes) → crc32 bs < 256 ^ 4
