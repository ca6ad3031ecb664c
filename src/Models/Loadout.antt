-- ===== src/Models/Loadout.antt =====
-- server/internal/models/inventory.go: what is equipped, one item for a slot.
use fear_online_server.Prelude.{
  ℕ, ◌≡◌, ◌≢◌, not, ◌==◌, if◌then◌else◌, List, [], ◌∷◌, ◌++◌, All, Option, some, find_by, filter_by,
  arith,
}

pub record EquippedItem : Type 0 where
  pub slot : ℕ
  pub serial : ℕ

abbrev pub Loadout : Type 0
Loadout = List EquippedItem

unfoldable pub equip : Loadout → ℕ → ℕ → Loadout
equip l slot serial =
    filter_by (λ e. not (e.slot == slot)) l ++ (record { slot = slot; serial = serial } ∷ [])

-- What stands in a slot.
unfoldable pub equipped : ℕ → Loadout → Option EquippedItem
equipped slot l = find_by (λ e. e.slot == slot) l

-- No slot holds two items.
abbrev pub Apart : ℕ → Loadout → Type 0
Apart slot l = All (λ e. e.slot ≢ slot) l

abbrev pub OnePerSlot : Loadout → Type 0
OnePerSlot [] = Unit {0}
OnePerSlot (e ∷ l) = Apart e.slot l × OnePerSlot l

-- A slot shows the item that was equipped last in it, and every other slot what it showed before.
pub equipped-equip :
    (l : Loadout) (slot serial other : ℕ)
    → equipped other (equip l slot serial)
      ≡ (if other == slot then some (record { slot = slot; serial = serial }) else equipped other l)
unfolding equipped equip
equipped-equip [] slot serial other = ground arith
equipped-equip (e ∷ l) slot serial other = ground (arith, equipped-equip l slot serial other)

Apart-equip :
    (l : Loadout) (slot serial other : ℕ)
    → other ≢ slot
    → Apart other l
    → Apart other (equip l slot serial)
unfolding equip
Apart-equip [] slot serial other n h = ground arith
Apart-equip (e ∷ l) slot serial other n h = ground (arith, Apart-equip l slot serial other n h.1)

-- Equipping keeps at most one item in each slot.
pub equip-OnePerSlot :
    (l : Loadout) (slot serial : ℕ) → OnePerSlot l → OnePerSlot (equip l slot serial)
unfolding equip
equip-OnePerSlot [] slot serial h = ground arith
equip-OnePerSlot (e ∷ l) slot serial h =
    ground (arith, Apart-equip l slot serial e.slot, equip-OnePerSlot l slot serial h.1)
