-- ===== src/Sstable/Encode.antt =====
-- sstable/src/encode.rs. A buffer is the list of its bytes; what a failed call has put into it stays.
use lowdb.Prelude.{
  ℕ, ◌<◌, ◌≡◌, refl, ap, List, [], ◌∷◌, append-nil, All, ◌∙◌, ◌++◌, length, append_assoc,
}
use lowdb.Prelude.Bytes.{Bytes, to_be}
use lowdb.Common.Key.{Key}
use lowdb.Common.Value.{Value, set, delete}
use lowdb.Common.Error.{DbResult, ok, err, try_u16, try_u16_fits}
use lowdb.Wal.Writer.Encoding.{pair_bytes, pairs_bytes, value_bytes, FitsPair, FitsValue}

unfoldable pub put_u16 : Bytes → ℕ → Bytes
put_u16 b v = b ++ to_be 2 v

unfoldable pub put_u32 : Bytes → ℕ → Bytes
put_u32 b v = b ++ to_be 4 v

unfoldable pub put_u64 : Bytes → ℕ → Bytes
put_u64 b v = b ++ to_be 8 v

unfoldable pub encode_key : Key → Bytes → DbResult (Unit {0}) × Bytes
unfolding put_u16 put_u64
encode_key key buf = elim (try_u16 (length key.user)) [
  | ok len ↦ (ok tt, put_u64 (put_u16 buf len ++ key.user) key.seq)
  | err e ↦ (err e, buf)
]

unfoldable pub encode_value : Value → Bytes → DbResult (Unit {0}) × Bytes
unfolding put_u16
encode_value (set value) buf = elim (try_u16 (length value)) [
  | ok len ↦ (ok tt, put_u16 buf len ++ value)
  | err e ↦ (err e, buf)
]
encode_value delete buf = (ok tt, put_u16 buf 0)

unfoldable pub encode : Key → Value → Bytes → DbResult (Unit {0}) × Bytes
encode key value buf =
    let (r, buf') = encode_key key buf in
    elim r [ ok _ ↦ encode_value value buf' | err e ↦ (err e, buf') ]

pub encode_key_lem :
    (key : Key) (buf : Bytes)
    → length key.user < 65536
    → encode_key key buf
      ≡ (ok tt, buf ++ (to_be 2 (length key.user) ++ (key.user ++ to_be 8 key.seq)))
unfolding encode_key put_u16 put_u64
encode_key_lem key buf h = rw (encode_key, try_u16_fits (length key.user) h) (simp append_assoc)

encode_value_lem :
    (value : Value) (buf : Bytes)
    → FitsValue value
    → encode_value value buf ≡ (ok tt, buf ++ value_bytes value)
unfolding encode_value put_u16 value_bytes
encode_value_lem (set v) buf h = rw (encode_value, try_u16_fits (length v) h) (simp append_assoc)
encode_value_lem delete buf h = refl

-- An entry whose key and value fit their length fields is put behind the buffer, in the layout of the
-- log.
pub encode_lem :
    (key : Key) (value : Value) (buf : Bytes)
    → FitsPair (key, value)
    → encode key value buf ≡ (ok tt, buf ++ pair_bytes key value)
unfolding encode pair_bytes
encode_lem key value buf (h, hv) =
    rw
      (
        encode,
        encode_key_lem key buf h,
        encode_value_lem value (encode_key key buf).1 hv,
        encode_key_lem key buf h,
      )
      (simp append_assoc)

-- Entries in turn, up to the first that fails.
unfoldable pub encode_all : List (Key × Value) → Bytes → DbResult (Unit {0}) × Bytes
encode_all [] buf = (ok tt, buf)
encode_all ((k, v) ∷ es) buf =
    let (r, buf') = encode k v buf in elim r [ ok _ ↦ encode_all es buf' | err e ↦ (err e, buf') ]

pub encode_all_lem :
    (es : List (Key × Value)) (buf : Bytes)
    → All FitsPair es
    → encode_all es buf ≡ (ok tt, buf ++ pairs_bytes es)
unfolding encode_all pairs_bytes
encode_all_lem [] buf h = rw (append-nil buf)
encode_all_lem ((k, v) ∷ es) buf (h, hs) =
    rw (encode_all, encode_lem k v buf h, encode_lem k v buf h)
      (encode_all_lem es (buf ++ pair_bytes k v) hs
        ∙ ap (λ b. (ok tt, b)) (append_assoc buf (pair_bytes k v) (pairs_bytes es)))
