-- ===== src/Repositories/Table.antt =====
-- A Go map with string keys, as an association list.
use fear_online_server.Prelude.{
  ◌≡◌, refl, String, ◌=ₛ◌, eq_iff, if◌then◌else◌, arith, Bool, List, [], ◌∷◌, Option, none, some,
}

module _ {V : Type 0} where
  abbrev pub lookup : String → List (String × V) → Option V
  lookup k [] = none
  lookup k ((j, v) ∷ t) = if j =ₛ k then some v else lookup k t

  abbrev pub insert : String → V → List (String × V) → List (String × V)
  insert k v [] = (k, v) ∷ []
  insert k v ((j, w) ∷ t) = if j =ₛ k then (j, v) ∷ t else (j, w) ∷ insert k v t

  abbrev pub delete : String → List (String × V) → List (String × V)
  delete k [] = []
  delete k ((j, w) ∷ t) = if j =ₛ k then delete k t else (j, w) ∷ delete k t

  -- `for _, v := range m { if test(v) { return v, true } }`; Go leaves the order open, and here it
  -- is that of the list.
  abbrev pub find_value : (V → Bool) → List (String × V) → Option V
  find_value test [] = none
  find_value test ((j, v) ∷ t) = if test v then some v else find_value test t

  pub lookup-insert :
      (k j : String) (v : V) (t : List (String × V))
      → lookup j (insert k v t) ≡ (if k =ₛ j then some v else lookup j t)
  lookup-insert k j v [] = refl
  lookup-insert k j v ((i, w) ∷ t) =
      ground (arith, eq_iff k j, eq_iff i k, eq_iff i j, lookup-insert k j v t)

  pub lookup-delete :
      (k j : String) (t : List (String × V))
      → lookup j (delete k t) ≡ (if k =ₛ j then none else lookup j t)
  lookup-delete k j [] = ground arith
  lookup-delete k j ((i, w) ∷ t) =
      ground (arith, eq_iff k j, eq_iff i k, eq_iff i j, lookup-delete k j t)
