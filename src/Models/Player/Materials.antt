-- ===== src/Models/Player/Materials.antt =====
-- server/internal/models/inventory.go: ConsumeMaterials and SpendUnit.
pub mod Conserve
use fear_online_server.Prelude.{
  ℕ, zero, suc, ◌+◌, ◌-◌, Bool, true, false, not, ◌&&◌, ltb, leb, ◌==◌, if◌then◌else◌, List, [],
  ◌∷◌, Option, none, some, find_by,
}
use fear_online_server.Prelude.Int.{ℤ, pos, negsuc}
use fear_online_server.Models.Item.{InventoryItem, no_item}
use fear_online_server.Models.Player.{Player}

-- The map from an ItemIndex to the count that is needed of it.
abbrev pub Need : Type 0
Need = List (ℕ × ℤ)

-- `remaining[index]`, which is 0 for a missing key.
unfoldable pub count_of : Need → ℕ → ℤ
count_of [] index = pos 0
count_of ((j, c) ∷ need) index = if j == index then c else count_of need index

-- `remaining[index] = 0`, for an index that is there.
unfoldable pub clear : Need → ℕ → Need
clear [] index = []
clear ((j, c) ∷ need) index = if j == index then (j, pos 0) ∷ need else (j, c) ∷ clear need index

-- `count`, where it is above 0.
abbrev pub positive : ℤ → ℕ
positive (pos n) = n
positive (negsuc n) = 0

-- `found && int(item.Value) >= count`.
abbrev enough : Option InventoryItem → ℤ → Bool
enough none count = false
enough (some item) count = leb (positive count) item.value

unfoldable pub all_enough : Need → List InventoryItem → Bool
all_enough [] inventory = true
all_enough ((index, count) ∷ need) inventory =
    enough (find_by (λ i. i.item_index == index) inventory) count && all_enough need inventory

pub record Consumed : Type 0 where
  pub deleted : List ℕ
  pub updated : List InventoryItem
  pub next : List InventoryItem

-- Only the first stack of an index is taken from.
unfoldable pub consume_loop : Need → List InventoryItem → Consumed
unfolding count_of clear
consume_loop need [] = record { deleted = []; updated = []; next = [] }
consume_loop need (i ∷ inventory) =
    let count = positive (count_of need i.item_index) in
    let rest = consume_loop (if ltb 0 count then clear need i.item_index else need) inventory in
    let less = record i { value = i.value - count } in
    if ltb 0 count
    then (if leb i.value count
        then record rest { deleted = i.serial ∷ rest.deleted }
        else record rest { updated = less ∷ rest.updated; next = less ∷ rest.next })
    else record rest { next = i ∷ rest.next }

-- `none` is `ok == false`; otherwise the deleted serials, the updated stacks and the player.
unfoldable pub consume_materials : Player → Need → Option (List ℕ × List InventoryItem × Player)
unfolding all_enough consume_loop
consume_materials p need =
    let done = consume_loop need p.inventory in
    if all_enough need p.inventory
    then some (done.deleted, done.updated, record p { inventory = done.next })
    else none

pub record SpentItem : Type 0 where
  pub serial : ℕ
  pub used_up : Bool
  pub remaining : InventoryItem

abbrev keep_item :
    InventoryItem
    → Option (SpentItem × List InventoryItem)
    → Option (SpentItem × List InventoryItem)
keep_item i none = none
keep_item i (some (s, inventory)) = some (s, i ∷ inventory)

unfoldable pub spend_loop : ℕ → List InventoryItem → Option (SpentItem × List InventoryItem)
spend_loop serial [] = none
spend_loop serial (i ∷ inventory) =
    let less = record i { value = i.value - 1 } in
    if not (i.serial == serial)
    then keep_item i (spend_loop serial inventory)
    else if leb i.value 1
    then some (record { serial = serial; used_up = true; remaining = no_item }, inventory)
    else some (record { serial = serial; used_up = false; remaining = less }, less ∷ inventory)

abbrev spent_from : Player → Option (SpentItem × List InventoryItem) → Option (SpentItem × Player)
spent_from p none = none
spent_from p (some (s, inventory)) = some (s, record p { inventory = inventory })

unfoldable pub spend_unit : Player → ℕ → Option (SpentItem × Player)
unfolding spend_loop
spend_unit p serial = spent_from p (spend_loop serial p.inventory)
