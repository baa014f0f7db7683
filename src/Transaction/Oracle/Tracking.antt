-- ===== src/Transaction/Oracle/Tracking.antt =====
-- What the map of recent commits knows of all commits, although it is pruned.
use lowdb.Prelude.{
  ℕ, ◌≤◌, ◌<◌, ◌≡◌, refl, ◌⊎◌, inl, inr, true, Bool-cases, some, List, [], ◌∷◌, arith, ltb,
  if◌then◌else◌, Option-cases, lt→ltb, ltb→lt,
}
use lowdb.Prelude.Bytes.{Bytes}
use lowdb.Common.Value.{Value}
use lowdb.Common.Key.{same}
use lowdb.Transaction.Oracle.{Recent, insert_recent, retain_above, insert_keys, any_newer}

-- Every key that was ever committed with the timestamp of the commit, the newest first.
abbrev pub History : Type 0
History = List (Bytes × ℕ)

-- The timestamp of the last commit of `k`, and 0 where there was none.
unfoldable pub latest : Bytes → History → ℕ
latest k [] = 0
latest k ((j, ts) ∷ h) = let rest = latest k h in if same j k then ts else rest

unfoldable pub record_keys : ℕ → List (Bytes × Value) → History → History
record_keys ts [] h = h
record_keys ts ((k, v) ∷ kvs) h = record_keys ts kvs ((k, ts) ∷ h)

-- The map has the last commit of each key, unless that is at or below the watermark.
pub record Tracks (watermark : ℕ) (recent : Recent) (h : History) : Type 0 where
  pub complete : (k : Bytes) → (latest k h ≤ watermark) ⊎ (recent k ≡ some (latest k h))
  pub exact : (k : Bytes) (ts : ℕ) → recent k ≡ some ts → ts ≡ latest k h

pub Tracks-imp :
    (w w' : ℕ) (recent : Recent) (h : History) → w ≤ w' → Tracks w recent h → Tracks w' recent h
Tracks-imp w w' recent h le t = record {
  complete = λ k. elim (t.complete k) [ inl b ↦ inl (omega arith) | inr e ↦ inr e ];
  exact = t.exact;
}

insert_recent-Tracks :
    (w : ℕ) (recent : Recent) (h : History) (j : Bytes) (ts : ℕ)
    → Tracks w recent h
    → Tracks w (insert_recent j ts recent) ((j, ts) ∷ h)
unfolding insert_recent latest
insert_recent-Tracks w recent h j ts t = record {
  complete = λ k. elim (Bool-cases (same j k)) [
    | inl e ↦ rw (insert_recent, latest, e) (inr refl)
    | inr e ↦ rw (insert_recent, latest, e) (t.complete k)
  ];
  exact = λ k x eq. elim (Bool-cases (same j k)) [
    | inl e ↦ ground arith
    | inr e ↦ let kept = t.exact k x in ground arith
  ];
}

pub insert_keys-Tracks :
    (w ts : ℕ) (kvs : List (Bytes × Value)) (recent : Recent) (h : History)
    → Tracks w recent h
    → Tracks w (insert_keys ts kvs recent) (record_keys ts kvs h)
unfolding insert_keys record_keys
insert_keys-Tracks w ts [] recent h t = t
insert_keys-Tracks w ts ((k, v) ∷ kvs) recent h t =
    insert_keys-Tracks w ts kvs (insert_recent k ts recent) ((k, ts) ∷ h)
      (insert_recent-Tracks w recent h k ts t)

-- Pruning up to the watermark keeps what the map has to know.
pub retain_above-Tracks :
    (w : ℕ) (recent : Recent) (h : History) → Tracks w recent h → Tracks w (retain_above w recent) h
unfolding retain_above
retain_above-Tracks w recent h t = record {
  complete = λ k. elim (t.complete k) [
    | inl b ↦ inl b
    | inr e ↦ elim (Bool-cases (ltb w (latest k h))) [
      | inl above ↦ inr (rw (retain_above, e, above))
      | inr below ↦ inl (ground arith)
    ]
  ];
  exact = λ k ts eq. elim (Option-cases (recent k)) [
    | inl e ↦ ground arith
    | inr (x, e) ↦ let kept = t.exact k x e in ground arith
  ];
}

-- A key of the write set was committed after the snapshot.
abbrev pub Overwritten : ℕ → History → List (Bytes × Value) → Type 0
Overwritten read_ts h [] = ⊥
Overwritten read_ts h ((k, v) ∷ kvs) = (read_ts < latest k h) ⊎ Overwritten read_ts h kvs

module _ (w read_ts : ℕ) (recent : Recent) (h : History) (t : Tracks w recent h) where
  pub any_newer-Overwritten :
      (kvs : List (Bytes × Value)) → any_newer read_ts recent kvs ≡ true → Overwritten read_ts h kvs
  unfolding any_newer
  any_newer-Overwritten [] e = cc
  any_newer-Overwritten ((k, v) ∷ kvs) e =
      let rest = any_newer-Overwritten kvs in
      elim (Option-cases (recent k)) [
        | inl none_yet ↦ inr (rest (ground arith))
        | inr (ts, known) ↦ elim (Bool-cases (ltb read_ts ts)) [
          | inl newer ↦ inl (omega (arith, t.exact k ts known, ltb→lt read_ts ts newer))
          | inr older ↦ inr (rest (ground arith))
        ]
      ]

  pub any_newer_complete :
      (kvs : List (Bytes × Value))
      → w ≤ read_ts
      → Overwritten read_ts h kvs
      → any_newer read_ts recent kvs ≡ true
  unfolding any_newer
  any_newer_complete [] le o = elim o [ ]
  any_newer_complete ((k, v) ∷ kvs) le (inl b) = elim (t.complete k) [
    | inl low ↦ absurd (omega arith)
    | inr known ↦ let newer = lt→ltb read_ts (latest k h) b in ground arith
  ]
  any_newer_complete ((k, v) ∷ kvs) le (inr o) =
      let rest = any_newer_complete kvs le o in ground arith
