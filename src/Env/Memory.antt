-- ===== src/Env/Memory.antt =====
-- A concrete environment for the tests: a buffered file is a pair of byte lists, every write succeeds,
-- every text counts as UTF-8, and the checksum is the value of the bytes modulo 2^32.
use lowdb.Prelude.{
  ◌+◌, ◌*◌, ◌/◌, ◌-◌, ◌∷◌, Option, some, ℕ, ◌%◌, ◌≡◌, refl, sym, true, false, [], ◌++◌, length,
  length-append, append_assoc, take, drop, take-length-append, drop-length-append, ltb,
  if◌then◌else◌, lt→ltb, le→ltb, arith,
}
use lowdb.Prelude.Bytes.{Bytes, from_be}
use lowdb.Common.Error.{DbResult, ok, err, io, unexpected_eof}
use lowdb.Env.{Env}

abbrev pub read_list : ℕ → Bytes → DbResult (Bytes × Bytes)
read_list n bs = if ltb (length bs) n then err (io unexpected_eof) else ok (take n bs, drop n bs)

abbrev pub read_number : ℕ → Bytes → DbResult (ℕ × Bytes)
read_number n bs =
    if ltb (length bs) n then err (io unexpected_eof) else ok (from_be (take n bs), drop n bs)

pub enough : (bs rest : Bytes) → ltb (length (bs ++ rest)) (length bs) ≡ false
enough bs rest = le→ltb _ _ (omega (arith, length-append bs rest))

-- Decimal digits; bounds and a leading sign are not looked at.
abbrev pub parse_decimal : Bytes → Option ℕ
parse_decimal digits = some (from_digits digits 0)
  where
    from_digits : Bytes → ℕ → ℕ
    from_digits [] n = n
    from_digits (d ∷ ds) n = from_digits ds (10 * n + (d - 48))

abbrev pub memory : Env
memory = record {
  BufWriter = Bytes × Bytes;
  stored = λ w. w.0;
  pending = λ w. w.1;
  write_all = λ bs w. (ok tt, (w.0, w.1 ++ bs));
  flush = λ w. (ok tt, (w.0 ++ w.1, []));
  write_all_ok = λ bs w h. sym (append_assoc w.0 w.1 bs);
  flush_ok = λ w h. (refl, refl);
  read_exact = read_list;
  read_uint = read_number;
  read_exact_ok =
      λ bs rest. rw (enough bs rest, take-length-append bs rest, drop-length-append bs rest) refl;
  read_exact_eof = λ n bs h. rw (lt→ltb (length bs) n h) refl;
  read_uint_ok =
      λ bs rest. rw (enough bs rest, take-length-append bs rest, drop-length-append bs rest) refl;
  read_uint_eof = λ n bs h. rw (lt→ltb (length bs) n h) refl;
  is_utf8 = λ bs. true;
  from_utf8_lossy = λ bs. bs;
  from_utf8_lossy_valid = λ bs h. refl;
  parse_u64 = parse_decimal;
  parse_u32 = parse_decimal;
  bloom_scale = λ n. n * 69 / 100;
  crc32 = λ bs. from_be bs % 4294967296;
  crc32_u32 = λ bs. omega arith;
}
