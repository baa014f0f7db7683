-- ===== src/Sstable/Footer.antt =====
-- sstable/src/footer.rs.
use lowdb.Prelude.{
  ℕ, ◌≡◌, ◌<◌, ◌^◌, refl, ◌++◌, [], length, length-append, append_assoc, arith, true, ◌==◌,
  if◌then◌else◌,
}
use lowdb.Prelude.Bytes.{Bytes, length-to_be}
use lowdb.Common.Error.{DbResult, ok, err, invalid_state, ◌>>=◌}
use lowdb.Env.{Env}
use lowdb.Wal.Reader.RoundTrip.{uint_back}
use lowdb.Sstable.Encode.{put_u32, put_u64}

abbrev pub footer_len : ℕ
footer_len = 52

-- 0x5354_424C
abbrev pub magic_number : ℕ
magic_number = 1398030924

pub record Footer : Type 0 where
  pub entries : ℕ
  pub bloom_off : ℕ
  pub index_off : ℕ
  pub index_len : ℕ
  pub index_count : ℕ
  pub smallest_seq : ℕ
  pub largest_seq : ℕ
  pub magic : ℕ

unfoldable pub write_to_buf : Footer → Bytes → Bytes
unfolding put_u32 put_u64
write_to_buf f buffer =
    let buffer = put_u64 buffer f.entries in
    let buffer = put_u64 buffer f.bloom_off in
    let buffer = put_u64 buffer f.index_off in
    let buffer = put_u32 buffer f.index_len in
    let buffer = put_u32 buffer f.index_count in
    let buffer = put_u64 buffer f.smallest_seq in
    let buffer = put_u64 buffer f.largest_seq in put_u32 buffer f.magic

-- `Footer::read`, from the bytes that the reader has before it
unfoldable pub read_footer : Env → Bytes → DbResult (Footer × Bytes)
read_footer env r = do
  (entries, r) ← env.read_uint 8 r
  (bloom_off, r) ← env.read_uint 8 r
  (index_off, r) ← env.read_uint 8 r
  (index_len, r) ← env.read_uint 4 r
  (index_count, r) ← env.read_uint 4 r
  (smallest_seq, r) ← env.read_uint 8 r
  (largest_seq, r) ← env.read_uint 8 r
  (magic, r) ← env.read_uint 4 r
  let f : Footer = record {
    entries = entries;
    bloom_off = bloom_off;
    index_off = index_off;
    index_len = index_len;
    index_count = index_count;
    smallest_seq = smallest_seq;
    largest_seq = largest_seq;
    magic = magic;
  }
  if magic == magic_number then ok (f, r) else err invalid_state

-- Words in range, as the fields' types have it.
pub record InRange (f : Footer) : Type 0 where
  pub entries : f.entries < 256 ^ 8
  pub bloom_off : f.bloom_off < 256 ^ 8
  pub index_off : f.index_off < 256 ^ 8
  pub index_len : f.index_len < 256 ^ 4
  pub index_count : f.index_count < 256 ^ 4
  pub smallest_seq : f.smallest_seq < 256 ^ 8
  pub largest_seq : f.largest_seq < 256 ^ 8
  pub magic : f.magic ≡ magic_number

-- A footer with the right magic number takes 52 bytes, and is read back from them whatever follows.
pub read_footer-write_to_buf :
    (env : Env) (f : Footer) (rest : Bytes)
    → InRange f
    → (read_footer env (write_to_buf f [] ++ rest) ≡ ok (f, rest))
      × (length (write_to_buf f []) ≡ footer_len)
unfolding read_footer write_to_buf put_u32 put_u64
read_footer-write_to_buf env f rest h =
    let known : (f.magic == magic_number) ≡ true = rw h.magic refl in
    let small : f.magic < 256 ^ 4 = omega (arith, h.magic) in
    (
      simp append_assoc (
          rw (
            read_footer,
            uint_back env 8 f.entries _ h.entries,
            uint_back env 8 f.bloom_off _ h.bloom_off,
            uint_back env 8 f.index_off _ h.index_off,
            uint_back env 4 f.index_len _ h.index_len,
            uint_back env 4 f.index_count _ h.index_count,
            uint_back env 8 f.smallest_seq _ h.smallest_seq,
            uint_back env 8 f.largest_seq _ h.largest_seq,
            uint_back env 4 f.magic _ small,
            known,
          )),
      simp (length-append, length-to_be),
    )
