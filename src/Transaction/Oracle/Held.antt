-- ===== src/Transaction/Oracle/Held.antt =====
-- The counts of active snapshots (`begin` and `end` in transaction/src/oracle.rs): a snapshot that two
-- transactions share stays active until both have ended it.
use lowdb.Prelude.{
  ℕ, ◌+◌, ◌-◌, ◌≤◌, ◌≡◌, ◌↔◌, ◌==◌, refl, inl, inr, Option, List, [], ◌∷◌, ◌++◌, All, arith,
  Bool-cases, if◌then◌else◌,
}
use lowdb.Prelude.Bytes.{Bytes}
use lowdb.Common.Value.{Value}
use lowdb.Env.{Env}
use lowdb.Storage.{State}
use lowdb.Transaction.Oracle
use lowdb.Transaction.Oracle.{Oracle, begin, end, commit, next_tx_id, count_up, count_down, publish}
use lowdb.Transaction.Oracle.Active.{IsActive}

-- How often a snapshot is counted, and how often it is in a list of snapshots.
abbrev pub one_if : ℕ → ℕ → ℕ
one_if v r = if v == r then 1 else 0

abbrev pub refs : ℕ → List (ℕ × ℕ) → ℕ
refs r [] = 0
refs r ((t, n) ∷ xs) = (if t == r then n else 0) + refs r xs

abbrev pub occurs : ℕ → List ℕ → ℕ
occurs r [] = 0
occurs r (v ∷ vs) = one_if v r + occurs r vs

-- No count is zero.
abbrev IsCounted : List (ℕ × ℕ) → Type 0
IsCounted xs = All (λ (x : ℕ × ℕ). 1 ≤ x.1) xs

refs-count_up : (r v : ℕ) (xs : List (ℕ × ℕ)) → refs r (count_up v xs) ≡ one_if v r + refs r xs
unfolding count_up
refs-count_up r v [] = omega arith
refs-count_up r v ((t, n) ∷ xs) = let rest = refs-count_up r v xs in ground (arith, rest)

count_up-IsCounted : (v : ℕ) (xs : List (ℕ × ℕ)) → IsCounted xs → IsCounted (count_up v xs)
unfolding count_up
count_up-IsCounted v [] h = (omega arith, tt)
count_up-IsCounted v ((t, n) ∷ xs) (h, hs) =
    let rest = count_up-IsCounted v xs hs in
    let more : 1 ≤ n + 1 = omega arith in ground (arith, rest, more)

refs-count_down :
    (r v : ℕ) (xs : List (ℕ × ℕ)) → IsCounted xs → refs r (count_down v xs) ≡ refs r xs - one_if v r
unfolding count_down
refs-count_down r v [] h = omega arith
refs-count_down r v ((t, n) ∷ xs) (h, hs) =
    let rest = refs-count_down r v xs hs in ground (arith, rest, h)

count_down-IsCounted : (v : ℕ) (xs : List (ℕ × ℕ)) → IsCounted xs → IsCounted (count_down v xs)
unfolding count_down
count_down-IsCounted v [] h = tt
count_down-IsCounted v ((t, n) ∷ xs) (h, hs) =
    let rest = count_down-IsCounted v xs hs in ground (arith, rest, h)

occurs-middle :
    (r v : ℕ) (xs ys : List ℕ) → occurs r (xs ++ v ∷ ys) ≡ one_if v r + occurs r (xs ++ ys)
occurs-middle r v [] ys = refl
occurs-middle r v (x ∷ xs) ys = omega (arith, occurs-middle r v xs ys)

refs-IsActive : (r : ℕ) (xs : List (ℕ × ℕ)) → IsCounted xs → IsActive r xs ↔ (1 ≤ refs r xs)
refs-IsActive r xs h = (counted xs h, active xs)
  where
    counted : (xs : List (ℕ × ℕ)) → IsCounted xs → IsActive r xs → 1 ≤ refs r xs
    counted [] h a = elim a [ ]
    counted ((t, n) ∷ xs) (h, hs) (inl e) = ground (arith, h, e)
    counted ((t, n) ∷ xs) (h, hs) (inr a) = let rest = counted xs hs a in omega (arith, rest)

    active : (xs : List (ℕ × ℕ)) → 1 ≤ refs r xs → IsActive r xs
    active [] le = absurd (omega arith)
    active ((t, n) ∷ xs) le = elim (Bool-cases (t == r)) [
      | inl e ↦ inl (ground (arith, e))
      | inr e ↦ inr (active xs (ground (arith, e, le)))
    ]

module _ (env : Env) where
  -- The oracle with the snapshots that transactions hold: each began and has not ended.
  pub data Holds : Oracle → List ℕ → Type 1 where
    opened : (max_seq tx_id : ℕ) → Holds (Oracle.new max_seq tx_id) []
    begun : {o : Oracle} {vs : List ℕ} → Holds o vs → Holds (begin o).1 ((begin o).0 ∷ vs)
    ended :
        {o : Oracle} (xs ys : List ℕ) (v : ℕ) → Holds o (xs ++ v ∷ ys) → Holds (end v o) (xs ++ ys)
    numbered : {o : Oracle} {vs : List ℕ} → Holds o vs → Holds (next_tx_id o).1 vs
    committed :
        {o : Oracle} {vs : List ℕ} (s : State env) (tx_id : ℕ) (read_ts : Option ℕ)
        (buffer : List (Bytes × Value))
        → Holds o vs
        → Holds (commit env tx_id read_ts buffer o s).1.0 vs

  commit_active :
      (tx_id : ℕ) (read_ts : Option ℕ) (buffer : List (Bytes × Value)) (o : Oracle) (s : State env)
      → (commit env tx_id read_ts buffer o s).1.0.active ≡ o.active
  unfolding commit publish
  commit_active tx_id read_ts buffer o s = ground arith

  Holds-counts :
      {o : Oracle} {vs : List ℕ}
      → Holds o vs
      → IsCounted o.active × ((r : ℕ) → refs r o.active ≡ occurs r vs)
  unfolding Oracle.new begin end next_tx_id
  Holds-counts (opened max_seq tx_id) = (tt, λ r. refl)
  Holds-counts (begun {o} {vs} h) =
      let (counted, same) = Holds-counts h in
      (
        count_up-IsCounted o.visible o.active counted,
        λ r. omega (arith, refs-count_up r o.visible o.active, same r),
      )
  Holds-counts (ended {o} xs ys v h) =
      let (counted, same) = Holds-counts h in
      (
        count_down-IsCounted v o.active counted,
        λ r. omega (arith, refs-count_down r v o.active counted, same r, occurs-middle r v xs ys),
      )
  Holds-counts (numbered h) = Holds-counts h
  Holds-counts (committed {o} s tx_id read_ts buffer h) =
      let (counted, same) = Holds-counts h in
      rw (commit_active tx_id read_ts buffer o s) (counted, same)

  -- Whatever begins, ends and commits have happened, the oracle counts each snapshot as often as it is held, and
  -- a snapshot is active just when a transaction holds it: the end of one that others hold too does not
  -- release it. Only snapshots that are held are ended.
  pub held-IsActive :
      (o : Oracle) (vs : List ℕ) (r : ℕ)
      → Holds o vs
      → (refs r o.active ≡ occurs r vs) × (IsActive r o.active ↔ (1 ≤ occurs r vs))
  held-IsActive o vs r h =
      let (counted, same) = Holds-counts h in
      let (to, from) = refs-IsActive r o.active counted in
      (same r, ((λ a. rw (← same r) (to a)), (λ le. from (rw (same r) le))))
