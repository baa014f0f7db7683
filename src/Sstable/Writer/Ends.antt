-- ===== src/Sstable/Writer/Ends.antt =====
-- The ends of the entries that a writer was given, the range of its sequence numbers, and its index as
-- bytes.
use lowdb.Prelude.{
  ℕ, ◌<◌, ◌^◌, ◌≡◌, refl, ap, sym, ◌∙◌, Option, none, some, List, [], ◌∷◌, ◌++◌, length,
  append_assoc, append-nil, min, max, arith,
}
use lowdb.Prelude.Bytes.{Bytes, to_be}
use lowdb.Common.Key.{Key}
use lowdb.Common.Error.{ok}
use lowdb.Sstable.Encode.{encode_key_lem, put_u16, put_u64}
use lowdb.Sstable.Index.{IndexedKey, write_index}
use lowdb.Sstable.Table.Layout.{Entry}
use lowdb.Sstable.Writer.{first_with}

unfoldable pub first_of : List Entry → Option Key
first_of [] = none
first_of (e ∷ es) = some e.0

unfoldable pub last_of : List Entry → Option Key
last_of [] = none
last_of (e ∷ es) = elim (last_of es) [ none ↦ some e.0 | some k ↦ some k ]

pub first_of-snoc :
    (es : List Entry) (e : Entry) → first_of (es ++ e ∷ []) ≡ first_with (first_of es) e.0
unfolding first_of
first_of-snoc [] e = refl
first_of-snoc (x ∷ es) e = refl

pub last_of-snoc : (es : List Entry) (e : Entry) → last_of (es ++ e ∷ []) ≡ some e.0
unfolding last_of
last_of-snoc [] e = refl
last_of-snoc (x ∷ es) e = rw (last_of, last_of-snoc es e) refl

-- The entry of an index on disk.
abbrev pub index_entry : IndexedKey → Bytes
index_entry i =
    to_be 2 (length i.key.user)
    ++ (i.key.user ++ (to_be 8 i.key.seq ++ (to_be 8 i.block_off ++ to_be 2 i.block_len)))

unfoldable pub index_entries : List IndexedKey → Bytes
index_entries [] = []
index_entries (i ∷ is) = index_entry i ++ index_entries is

pub index_entries-snoc :
    (is : List IndexedKey) (i : IndexedKey)
    → index_entries (is ++ i ∷ []) ≡ index_entries is ++ index_entry i
unfolding index_entries
index_entries-snoc [] i = append-nil (index_entry i)
index_entries-snoc (x ∷ is) i =
    ap (λ bs. index_entry x ++ bs) (index_entries-snoc is i)
    ∙ sym (append_assoc (index_entry x) (index_entries is) (index_entry i))

pub write_index_lem :
    (i : IndexedKey) (buf : Bytes)
    → length i.key.user < 65536
    → write_index i buf ≡ (ok tt, buf ++ index_entry i)
unfolding write_index put_u16 put_u64
write_index_lem i buf h =
    let put = encode_key_lem i.key buf h in rw (write_index, put, put) (simp append_assoc)

-- The sequence numbers of a writer are words.
abbrev pub AreWords : ℕ → ℕ → Type 0
AreWords smallest largest = (smallest < 256 ^ 8) × (largest < 256 ^ 8)

pub AreWords-next :
    (first : Option Key) (k : Key) (s l : ℕ)
    → k.seq < 256 ^ 8
    → AreWords s l
    → AreWords
        (elim first [ none ↦ k.seq | some _ ↦ min s k.seq ])
        (elim first [ none ↦ k.seq | some _ ↦ max l k.seq ])
AreWords-next none k s l h w = (h, h)
AreWords-next (some _) k s l h (hs, hl) = (omega arith, omega arith)
