-- ===== src/Prelude/NatMap.antt =====
-- A Go map with integer keys, as an association list.
use Prim.Native.Nat.{ℕ}
use mathlib.Core.Path.{◌≡◌, refl}
use mathlib.Core.Option.{Option, none, some}
use mathlib.Core.List.{List, [], ◌∷◌}
use native.Mathlib.Omega.{arith}
use fear_online_server.Prelude.Tests.{◌==◌, if◌then◌else◌}

module _ {ℓ} {V : Type ℓ} where
  abbrev pub value_at : ℕ → List (ℕ × V) → Option V
  value_at k [] = none
  value_at k ((j, v) ∷ t) = if j == k then some v else value_at k t

  abbrev pub put : ℕ → V → List (ℕ × V) → List (ℕ × V)
  put k v [] = (k, v) ∷ []
  put k v ((j, w) ∷ t) = if j == k then (j, v) ∷ t else (j, w) ∷ put k v t

  abbrev pub remove_key : ℕ → List (ℕ × V) → List (ℕ × V)
  remove_key k [] = []
  remove_key k ((j, w) ∷ t) = if j == k then remove_key k t else (j, w) ∷ remove_key k t

  pub value_at-put :
      (k j : ℕ) (v : V) (t : List (ℕ × V))
      → value_at j (put k v t) ≡ (if k == j then some v else value_at j t)
  value_at-put k j v [] = refl
  value_at-put k j v ((i, w) ∷ t) = ground (arith, value_at-put k j v t)

  pub value_at-remove_key :
      (k j : ℕ) (t : List (ℕ × V))
      → value_at j (remove_key k t) ≡ (if k == j then none else value_at j t)
  value_at-remove_key k j [] = ground arith
  value_at-remove_key k j ((i, w) ∷ t) = ground (arith, value_at-remove_key k j t)
