-- ===== src/Transaction/Oracle.antt =====
-- transaction/src/oracle.rs. The hash map of recent commits is a function, and the ordered map of
-- active snapshots a list of (read_ts, count) in ascending order of `read_ts`. Each function holds the
-- lock that the code takes, so it is one step; `commit` is the part under the commit lock, up to the
-- call of `freeze_if_full`.
pub mod Active
pub mod Tracking
pub mod Consistent
pub mod Conflicts
pub mod Held
use lowdb.Prelude.{
  ℕ, ◌+◌, ◌-◌, ◌%◌, ◌^◌, Bool, true, false, ◌||◌, Option, none, some, List, [], ◌∷◌, ltb, ◌==◌,
  compare, Ordering, if◌then◌else◌, map,
}
use lowdb.Prelude.Bytes.{Bytes}
use lowdb.Common.Key.{Key, same}
use lowdb.Common.Value.{Value}
use lowdb.Common.Error.{DbResult, ok, err, commit_conflict}
use lowdb.Env.{Env}
use lowdb.Storage.{State, set_batch}

-- `HashMap<String, u64>`
abbrev pub Recent : Type 0
Recent = Bytes → Option ℕ

unfoldable pub insert_recent : Bytes → ℕ → Recent → Recent
insert_recent k ts recent = λ j. if same k j then some ts else recent j

unfoldable pub retain_above : ℕ → Recent → Recent
retain_above watermark recent =
    λ j. elim (recent j) [ none ↦ none | some ts ↦ if ltb watermark ts then some ts else none ]

pub record Oracle : Type 0 where
  pub next_seq : ℕ
  pub visible : ℕ
  pub tx_id : ℕ
  pub recent : Recent
  pub active : List (ℕ × ℕ)

abbrev pub u64 : ℕ → ℕ
u64 n = n % 2 ^ 64

unfoldable pub new : ℕ → ℕ → Oracle
new max_seq tx_id = record {
  next_seq = u64 (max_seq + 1);
  visible = max_seq;
  tx_id = tx_id;
  recent = λ k. none;
  active = [];
}

unfoldable pub next_tx_id : Oracle → ℕ × Oracle
next_tx_id o = (o.tx_id, record o { tx_id = u64 (o.tx_id + 1) })

-- `*active.entry(read_ts).or_default() += 1`
unfoldable pub count_up : ℕ → List (ℕ × ℕ) → List (ℕ × ℕ)
count_up v [] = (v, 1) ∷ []
count_up v ((t, n) ∷ xs) =
    let rest = count_up v xs in
    elim (compare v t) [
      | Ordering.lt ↦ (v, 1) ∷ (t, n) ∷ xs
      | Ordering.eq ↦ (t, n + 1) ∷ xs
      | Ordering.gt ↦ (t, n) ∷ rest
    ]

-- the body of `end`
unfoldable pub count_down : ℕ → List (ℕ × ℕ) → List (ℕ × ℕ)
count_down v [] = []
count_down v ((t, n) ∷ xs) =
    let rest = count_down v xs in
    if t == v then (if n - 1 == 0 then xs else (t, n - 1) ∷ xs) else (t, n) ∷ rest

unfoldable pub begin : Oracle → ℕ × Oracle
begin o = (o.visible, record o { active = count_up o.visible o.active })

unfoldable pub end : ℕ → Oracle → Oracle
end read_ts o = record o { active = count_down read_ts o.active }

-- `active.first_key_value().map_or(commit_ts, |(&ts, _)| ts)`
abbrev pub first_or : ℕ → List (ℕ × ℕ) → ℕ
first_or commit_ts [] = commit_ts
first_or commit_ts ((ts, n) ∷ xs) = ts

-- `buffer.keys().any(...)`
unfoldable pub any_newer : ℕ → Recent → List (Bytes × Value) → Bool
any_newer read_ts recent [] = false
any_newer read_ts recent ((k, v) ∷ kvs) =
    let rest = any_newer read_ts recent kvs in
    elim (recent k) [ none ↦ rest | some ts ↦ if ltb read_ts ts then true else rest ]

unfoldable pub conflicts : Oracle → Option ℕ → List (Bytes × Value) → Bool
conflicts o none buffer = false
conflicts o (some read_ts) buffer = any_newer read_ts o.recent buffer

unfoldable pub versions : ℕ → List (Bytes × Value) → List (Key × Value)
versions commit_ts [] = []
versions commit_ts ((k, v) ∷ kvs) =
    (record { user = k; seq = commit_ts }, v) ∷ versions commit_ts kvs

-- `for k in buffer.into_keys()`
unfoldable pub insert_keys : ℕ → List (Bytes × Value) → Recent → Recent
insert_keys commit_ts [] recent = recent
insert_keys commit_ts ((k, v) ∷ kvs) recent =
    insert_keys commit_ts kvs (insert_recent k commit_ts recent)

-- what a commit does to the oracle once its writes are in place
unfoldable pub publish : ℕ → List (Bytes × Value) → Oracle → Oracle
publish commit_ts buffer o = record o {
  visible = commit_ts;
  recent = retain_above (first_or commit_ts o.active) (insert_keys commit_ts buffer o.recent);
}

module _ (env : Env) where
  unfoldable pub commit :
      ℕ → Option ℕ → List (Bytes × Value) → Oracle → State env → DbResult ℕ × (Oracle × State env)
  commit tx_id read_ts buffer o s =
      if conflicts o read_ts buffer
      then (err commit_conflict, (o, s))
      else let commit_ts = o.next_seq in
        let o' = record o { next_seq = u64 (commit_ts + 1) } in
        let (written, s') = set_batch env tx_id (versions commit_ts buffer) s in
        elim written [
          | err e ↦ (err e, (o', s'))
          | ok _ ↦ (ok commit_ts, (publish commit_ts buffer o', s'))
        ]
