-- ===== src/Transaction/Session/Reads.antt =====
-- A transaction reads its own writes.
use lowdb.Prelude.{
  ◌≡◌, ◌≢◌, refl, Ordering, Ordering-cases, inl, inr, none, some, List, [], ◌∷◌, arith,
}
use lowdb.Prelude.Bytes.{Bytes}
use lowdb.Common.Key.{cmp_str}
use lowdb.Common.Key.Order.{cmp_str_refl, cmp_str_trans, eq_of_cmp_str}
use lowdb.Common.Value.{Value}
use lowdb.Common.Error.{ok}
use lowdb.Env.{Env}
use lowdb.Storage.Levels.{Layers}
use lowdb.Transaction.Session.{Transaction, insert_buffer, get_buffer, set, delete_key, get}

get_buffer-insert_own :
    (key : Bytes) (v : Value) (b : List (Bytes × Value))
    → get_buffer (insert_buffer key v b) key ≡ some v
unfolding get_buffer insert_buffer
get_buffer-insert_own key v [] = ground (arith, cmp_str_refl key)
get_buffer-insert_own key v ((k, x) ∷ b) =
    let rest = get_buffer-insert_own key v b in ground (arith, cmp_str_refl key, rest)

get_buffer-insert_other :
    (key j : Bytes) (v : Value) (b : List (Bytes × Value))
    → j ≢ key
    → get_buffer (insert_buffer key v b) j ≡ get_buffer b j
unfolding get_buffer insert_buffer
get_buffer-insert_other key j v [] h =
    let other : cmp_str j key ≢ Ordering.eq = λ e. h (eq_of_cmp_str j key e) in
    ground (arith, other)
get_buffer-insert_other key j v ((k, x) ∷ b) h =
    let rest = get_buffer-insert_other key j v b h in
    let other : cmp_str j key ≢ Ordering.eq = λ e. h (eq_of_cmp_str j key e) in
    elim (Ordering-cases (cmp_str key k)) [
      | inl lt ↦ elim (Ordering-cases (cmp_str j key)) [
        | inl jl ↦
            let before : cmp_str j k ≡ Ordering.lt = cmp_str_trans j key k jl lt in
            rw (insert_buffer, lt, get_buffer, jl, before) refl
        | inr (inl je) ↦ absurd (other je)
        | inr (inr jg) ↦ rw (insert_buffer, lt, get_buffer, jg) refl
      ]
      | inr (inl eq) ↦
          let same : key ≡ k = eq_of_cmp_str key k eq in
          rw (insert_buffer, eq, get_buffer) (ground (arith, other, same))
      | inr (inr gt) ↦ rw (insert_buffer, gt, get_buffer) (ground (arith, rest))
    ]

-- In a transaction, a read of a key that it set last gives the value, whatever the database holds, a read
-- of a key that it deleted last gives none, and neither changes a read of any other key.
pub get-write :
    (env : Env) (state : Layers env) (tx : Transaction) (key value j : Bytes)
    → j ≢ key
    → (get env state (set key value tx) key ≡ ok (some value))
      × (get env state (delete_key key tx) key ≡ ok none)
      × (get env state (set key value tx) j ≡ get env state tx j)
      × (get env state (delete_key key tx) j ≡ get env state tx j)
unfolding get set delete_key
get-write env state tx key value j h = (
  rw (get, get_buffer-insert_own key (Value.set value) tx.buffer) refl,
  rw (get, get_buffer-insert_own key Value.delete tx.buffer) refl,
  rw (get, get_buffer-insert_other key j (Value.set value) tx.buffer h) refl,
  rw (get, get_buffer-insert_other key j Value.delete tx.buffer h) refl,
)
