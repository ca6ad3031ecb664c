-- ===== src/Services/Players/Granted/First.antt =====
-- The loop that changes the first item of an index, and an item that joins the others.
use mathlib.Core.Logic.{◌≢◌}
use fear_online_server.Prelude.{
  ℕ, ◌≡◌, refl, false, ◌==◌, if◌then◌else◌, arith, ap, Option, none, Bool-cases, List, [], ◌∷◌,
  ◌++◌, All, some, Option-cases, inl, inr, find_by,
}
use fear_online_server.Models.Item.{InventoryItem}
use fear_online_server.Models.Player.{serial_used}
use fear_online_server.Models.Player.Materials.Conserve.{Unique}
use fear_online_server.Services.Players.Grants.{change_first}

-- The first item of an index.
abbrev pub first_of : ℕ → List InventoryItem → Option InventoryItem
first_of index = find_by (λ i. i.item_index == index)

change_first-other :
    (index s : ℕ) (f : InventoryItem → InventoryItem) (inv : List InventoryItem) (i : InventoryItem)
    (after : List InventoryItem)
    → ((j : InventoryItem) → (f j).serial ≡ j.serial)
    → All (λ j. j.serial ≢ s) inv
    → change_first index f inv ≡ some (i, after)
    → i.serial ≢ s
unfolding change_first
change_first-other index s f [] i after k u e = absurd (cc)
change_first-other index s f (j ∷ inv) i after k u e =
    elim (Option-cases (change_first index f inv)) [
      | inl d ↦ ground (arith, d, k j)
      | inr ((i', after'), d) ↦
          ground (arith, d, k j, change_first-other index s f inv i' after' k u.1 d)
    ]

-- A change that keeps the serial shows at that serial, and nowhere else.
pub change_first_lem :
    (index other : ℕ) (f : InventoryItem → InventoryItem) (inv : List InventoryItem)
    (i : InventoryItem) (after : List InventoryItem)
    → ((j : InventoryItem) → (f j).serial ≡ j.serial)
    → Unique inv
    → change_first index f inv ≡ some (i, after)
    → find_by (λ j. j.serial == other) after
      ≡ (if i.serial == other then some i else find_by (λ j. j.serial == other) inv)
unfolding change_first
change_first_lem index other f [] i after k u e = absurd (cc)
change_first_lem index other f (j ∷ inv) i after k u e =
    elim (Option-cases (change_first index f inv)) [
      | inl d ↦ ground (arith, d, k j)
      | inr ((i', after'), d) ↦ ground (
        arith,
        d,
        k j,
        change_first_lem index other f inv i' after' k u.1 d,
        change_first-other index j.serial f inv i' after' k u.0 d,
      )
    ]

pub find-append :
    (other : ℕ) (inv : List InventoryItem) (i : InventoryItem)
    → serial_used inv i.serial ≡ false
    → find_by (λ j. j.serial == other) (inv ++ (i ∷ []))
      ≡ (if i.serial == other then some i else find_by (λ j. j.serial == other) inv)
unfolding serial_used
find-append other [] i h = refl
find-append other (j ∷ inv) i h = ground (arith, find-append other inv i)

pub change_first-none :
    (index : ℕ) (f : InventoryItem → InventoryItem) (inv : List InventoryItem)
    → first_of index inv ≡ none
    → change_first index f inv ≡ none
unfolding change_first
change_first-none index f [] e = refl
change_first-none index f (j ∷ inv) e = ground (arith, change_first-none index f inv)

pub change_first-some :
    (index : ℕ) (f : InventoryItem → InventoryItem) (inv : List InventoryItem) (old : InventoryItem)
    → first_of index inv ≡ some old
    → (after : List InventoryItem) × (change_first index f inv ≡ some (f old, after))
unfolding change_first
change_first-some index f [] old e = absurd (cc)
change_first-some index f (j ∷ inv) old e = elim (Bool-cases (j.item_index == index)) [
  | inl hit ↦
      let chosen : some j ≡ some old = rw hit at e in
      let same : j ≡ old = cc (chosen) in (f j ∷ inv, rw hit (ap (λ x. some (f x, f j ∷ inv)) same))
  | inr miss ↦
      let (after, d) = change_first-some index f inv old (rw miss at e) in
      (j ∷ after, rw (miss, d) refl)
]
