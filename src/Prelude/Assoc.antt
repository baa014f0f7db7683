-- ===== src/Prelude/Assoc.antt =====
-- Association lists with numbers as keys: what the model takes for a `HashMap<u64, _>`.
use Prim.Native.Nat.{ℕ}
use mathlib.Core.Option.{Option, none, some}
use mathlib.Core.List.{List, [], ◌∷◌}
use lowdb.Prelude.Tests.{◌==◌, if◌then◌else◌}

module _ {ℓ} {A : Type ℓ} where
  unfoldable pub get : ℕ → List (ℕ × A) → Option A
  get k [] = none
  get k ((j, a) ∷ xs) = let rest = get k xs in if j == k then some a else rest

  -- `insert`: the value of a known key is replaced.
  unfoldable pub insert : ℕ → A → List (ℕ × A) → List (ℕ × A)
  insert k v [] = (k, v) ∷ []
  insert k v ((j, a) ∷ xs) =
      let rest = insert k v xs in if j == k then (k, v) ∷ xs else (j, a) ∷ rest

  unfoldable pub remove : ℕ → List (ℕ × A) → List (ℕ × A)
  remove k [] = []
  remove k ((j, a) ∷ xs) = let rest = remove k xs in if j == k then rest else (j, a) ∷ rest
