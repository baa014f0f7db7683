-- ===== src/Wal/Examples.antt =====
-- Tests and applications of the theorems on the log.
use lowdb.Prelude.{ℕ, ◌≡◌, refl, true, List, [], ◌∷◌, ◌++◌, length, some, arith}
use lowdb.Prelude.Bytes.{Bytes}
use lowdb.Common.Key.{Key}
use lowdb.Common.Value.{set, delete}
use lowdb.Common.Error.{ok, err, DbError}
use lowdb.Env.Memory.{memory}
use lowdb.Wal.{WalCmd, op, batch}
use lowdb.Wal.Writer.{append}
use lowdb.Wal.Writer.Encoding.{Fits, encode_cmd, stored-append}
use lowdb.Wal.Writer.Success.{IsReliable, append_succeeds}
use lowdb.Wal.Reader.{next}
use lowdb.Wal.Reader.RoundTrip.{Readable, next-encode_cmd, next-empty_value}
use lowdb.Wal.Reader.Torn.{next_torn}

abbrev key : Key
key = record { user = 107 ∷ []; seq = 5 }

abbrev put_v : WalCmd
put_v = op 7 key (set (118 ∷ []))

abbrev two_pairs : WalCmd
two_pairs = batch 7 ((key, set (118 ∷ [])) ∷ (record { user = 97 ∷ []; seq = 6 }, delete) ∷ [])

-- a file that holds the byte 1 and has the byte 2 in its buffer
abbrev file : Bytes × Bytes
file = (1 ∷ [], 2 ∷ [])

reliable : IsReliable memory
reliable = record { writes = λ bs w. refl; flushes = λ w. refl }

two_pairs-Fits : Fits two_pairs
two_pairs-Fits = (omega arith, ((omega arith, omega arith), ((omega arith, tt), tt)))

two_pairs-Readable : Readable memory two_pairs
two_pairs-Readable = (
  omega arith,
  omega arith,
  (
    (omega arith, refl, omega arith, (omega arith, omega arith, refl)),
    ((omega arith, refl, omega arith, tt), tt),
  ),
)

encode_put_v :
    encode_cmd put_v
    ≡ 3 ∷ 0 ∷ 0 ∷ 0 ∷ 0 ∷ 0 ∷ 0 ∷ 0 ∷ 7 ∷ 0 ∷ 1 ∷ 107 ∷ 0 ∷ 0 ∷ 0 ∷ 0 ∷ 0 ∷ 0 ∷ 0 ∷ 5 ∷ 0 ∷ 1 ∷ 118
      ∷ []
unfolding encode_cmd lowdb.Prelude.Bytes.to_be lowdb.Wal.Writer.Encoding.pair_bytes
    lowdb.Wal.Writer.Encoding.value_bytes
encode_put_v = refl

append_succeeds_example : (append memory two_pairs file).0 ≡ ok tt
append_succeeds_example = append_succeeds memory reliable two_pairs file two_pairs-Fits

stored-append_example :
    Fits two_pairs
    × ((append memory two_pairs file).1.0 ≡ (1 ∷ 2 ∷ []) ++ encode_cmd two_pairs)
    × ((append memory two_pairs file).1.1 ≡ [])
stored-append_example =
    stored-append memory two_pairs file
      (append_succeeds memory reliable two_pairs file two_pairs-Fits)

next-encode_cmd_example : next memory (encode_cmd two_pairs ++ 1 ∷ []) ≡ ok (some two_pairs, 1 ∷ [])
next-encode_cmd_example = next-encode_cmd memory two_pairs (1 ∷ []) two_pairs-Readable

next-empty_value_example :
    next memory (encode_cmd (op 7 key (set [])) ++ []) ≡ ok (some (op 7 key delete), [])
next-empty_value_example =
    next-empty_value memory 7 key [] (omega arith, (omega arith, refl, omega arith, tt))

next_torn_example :
    (e : DbError) × (next memory (
        3 ∷ 0 ∷ 0 ∷ 0 ∷ 0 ∷ 0 ∷ 0 ∷ 0 ∷ 7 ∷ 0 ∷ 1 ∷ 107 ∷ 0 ∷ 0 ∷ 0 ∷ 0 ∷ 0 ∷ 0 ∷ 0 ∷ 5 ∷ 0 ∷ 1
        ∷ [])
      ≡ err e)
next_torn_example =
    next_torn memory put_v 3 118
      (0 ∷ 0 ∷ 0 ∷ 0 ∷ 0 ∷ 0 ∷ 0 ∷ 7 ∷ 0 ∷ 1 ∷ 107 ∷ 0 ∷ 0 ∷ 0 ∷ 0 ∷ 0 ∷ 0 ∷ 0 ∷ 5 ∷ 0 ∷ 1 ∷ []) []
      (omega arith, (omega arith, refl, omega arith, (omega arith, omega arith, refl))) encode_put_v
