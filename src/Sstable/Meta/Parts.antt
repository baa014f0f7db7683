-- ===== src/Sstable/Meta/Parts.antt =====
-- Reading back the parts of a file of a table: the filter, the index, the first key and the footer.
use lowdb.Prelude.{
  ℕ, zero, suc, ◌+◌, ◌-◌, ◌≤◌, ◌<◌, ◌^◌, ◌≡◌, refl, ap, List, [], ◌∷◌, ◌++◌, length, length-append,
  append_assoc, drop, drop-length-append, All, arith, ◌==◌, true, false,
}
use lowdb.Prelude.Bytes.{Bytes, to_be}
use lowdb.Common.Key
use lowdb.Common.Key.{Key}
use lowdb.Common.Error.{ok}
use lowdb.Env.{Env}
use lowdb.Wal.Reader.RoundTrip.{uint_back}
use lowdb.Sstable.Footer.{Footer, InRange, footer_len, write_to_buf, read_footer-write_to_buf}
use lowdb.Sstable.Encode.{put_u32, put_u64}
use lowdb.Sstable.Index.{IndexedKey, index_disk_size, list_disk_size, stream_index, stream_key}
use lowdb.Sstable.Meta.{stream_bloom, bloom_at, footer_at, index_loop, index_at}
use lowdb.Sstable.Scan.Table.{checked_sub}
use lowdb.Sstable.Writer.Ends.{index_entry, index_entries}
use lowdb.Sstable.Writer.Written.{footer_bytes}

module _ (env : Env) where
  -- An entry of the index that reads back.
  pub record IsStored (i : IndexedKey) : Type 0 where
    pub short : length i.key.user < 65536
    pub utf8 : env.is_utf8 i.key.user ≡ true
    pub seq : i.key.seq < 256 ^ 8
    pub off : i.block_off < 256 ^ 8
    pub len : i.block_len < 65536

  stream_index-back :
      (i : IndexedKey) (rest : Bytes)
      → IsStored i
      → stream_index env (index_entry i ++ rest) ≡ ok (i, rest)
  unfolding stream_index stream_key
  stream_index-back i rest h = simp append_assoc (
      rw
        (
          stream_index,
          stream_key,
          uint_back env 2 (length i.key.user) _ h.short,
          env.read_exact_ok i.key.user _,
          uint_back env 8 i.key.seq _ h.seq,
          env.from_utf8_lossy_valid i.key.user h.utf8,
          uint_back env 8 i.block_off _ h.off,
          uint_back env 2 i.block_len rest h.len,
        )
        refl)

  index_loop-back :
      (n : ℕ) (is : List IndexedKey) (rest : Bytes)
      → All IsStored is
      → list_disk_size is ≤ n
      → index_loop env n (list_disk_size is) (index_entries is ++ rest) ≡ ok is
  unfolding index_loop list_disk_size index_entries index_disk_size Key.disk_size
  index_loop-back zero [] rest h le = refl
  index_loop-back (suc n) [] rest h le = refl
  index_loop-back zero (i ∷ is) rest h le = absurd (omega arith)
  index_loop-back (suc n) (i ∷ is) rest (h, hs) le =
      let more : index_loop env n (list_disk_size is) (index_entries is ++ rest) ≡ ok is =
        index_loop-back n is rest hs (omega arith) in
      let left : checked_sub (index_disk_size i + list_disk_size is) (index_disk_size i)
          ≡ ok (list_disk_size is) =
        let rest : (index_disk_size i + list_disk_size is) - index_disk_size i ≡ list_disk_size is =
          omega arith in
        rw rest (ground arith) in
      let some_left : ((index_disk_size i + list_disk_size is) == 0) ≡ false = ground arith in
      rw
        (
          append_assoc,
          index_loop,
          some_left,
          stream_index-back i (index_entries is ++ rest) h,
          left,
          more,
        )
        refl

  drop-front : (front rest : Bytes) (n : ℕ) → n ≡ length front → drop n (front ++ rest) ≡ rest
  drop-front front rest n e = rw e (drop-length-append front rest)

  pub index_at-back :
      (front rest : Bytes) (is : List IndexedKey) (off : ℕ)
      → off ≡ length front
      → All IsStored is
      → index_at env (front ++ (index_entries is ++ rest)) off (list_disk_size is) ≡ ok is
  unfolding index_at
  index_at-back front rest is off e h =
      rw (index_at, drop-front front (index_entries is ++ rest) off e)
        (index_loop-back (list_disk_size is) is rest h (omega arith))

  pub bloom_at-back :
      (front bloom rest : Bytes) (off : ℕ)
      → off ≡ length front
      → length bloom < 256 ^ 4
      → bloom_at env (front ++ ((to_be 4 (length bloom) ++ bloom) ++ rest)) off ≡ ok bloom
  unfolding bloom_at stream_bloom
  bloom_at-back front bloom rest off e h =
      rw
        (
          bloom_at,
          drop-front front ((to_be 4 (length bloom) ++ bloom) ++ rest) off e,
          append_assoc,
          stream_bloom,
          uint_back env 4 (length bloom) (bloom ++ rest) h,
          env.read_exact_ok bloom rest,
        )
        refl

  footer_bytes_lem : (f : Footer) → footer_bytes env f ≡ write_to_buf f []
  unfolding footer_bytes write_to_buf put_u32 put_u64
  footer_bytes_lem f = simp append_assoc

  pub footer_at-back :
      (front : Bytes) (f : Footer) (size : ℕ)
      → size ≡ length (front ++ (footer_bytes env f ++ []))
      → InRange f
      → footer_at env (front ++ (footer_bytes env f ++ [])) size ≡ ok f
  unfolding footer_at
  footer_at-back front f size e h =
      let (back, fixed) = read_footer-write_to_buf env f [] h in
      let all : footer_bytes env f ≡ write_to_buf f [] = footer_bytes_lem f in
      let off : size - footer_len ≡ length front = omega (
        arith,
        e,
        length-append front (footer_bytes env f ++ []),
        length-append (footer_bytes env f) [],
        ap length all,
        fixed,
      ) in
      rw (footer_at, drop-front front (footer_bytes env f ++ []) (size - footer_len) off, all, back)
        refl
