-- ===== src/Models/Player/Materials/Conserve.antt =====
-- What crafting and spending take from the inventory, and what they leave.
use native.Mathlib.Decide.{ℕ_discrete}
use fear_online_server.Prelude.{
  ℕ, ◌+◌, ◌-◌, ◌≤◌, ◌≡◌, refl, ap, ◌≢◌, inl, inr, true, leb, ◌==◌, if◌then◌else◌, arith, List, [],
  ◌∷◌, All, Option, none, some, find_by, Option-cases,
}
use fear_online_server.Prelude.Int.{ℤ}
use fear_online_server.Models.Item.{InventoryItem}
use fear_online_server.Models.Player.{Player, item}
use fear_online_server.Models.Player.Materials.{
  Need, count_of, clear, positive, enough, all_enough, consume_loop, consume_materials, SpentItem,
  spend_loop, spend_unit,
}

-- The units of an ItemIndex in an inventory, over all its stacks.
unfoldable pub total : ℕ → List InventoryItem → ℕ
total index [] = 0
total index (i ∷ inv) = (if i.item_index == index then i.value else 0) + total index inv

-- The units in the first stack of an index.
first_stack : ℕ → List InventoryItem → ℕ
first_stack index [] = 0
first_stack index (i ∷ inv) = if i.item_index == index then i.value else first_stack index inv

count_of-clear :
    (need : Need) (j index : ℕ)
    → positive (count_of (clear need j) index)
      ≡ (if j == index then 0 else positive (count_of need index))
unfolding count_of clear
count_of-clear [] j index = ground arith
count_of-clear ((k, c) ∷ need) j index = ground (arith, count_of-clear need j index)

total-consume_loop :
    (need : Need) (inv : List InventoryItem) (index : ℕ)
    → positive (count_of need index) ≤ first_stack index inv
    → total index (consume_loop need inv).next + positive (count_of need index) ≡ total index inv
unfolding consume_loop total first_stack
total-consume_loop need [] index h = omega arith
total-consume_loop need (i ∷ inv) index h = ground (
  arith,
  count_of-clear need i.item_index index,
  total-consume_loop (clear need i.item_index) inv index,
  total-consume_loop need inv index,
  λ (e : i.item_index ≡ index). ap (λ j. positive (count_of need j)) e,
)

enough_first :
    (inv : List InventoryItem) (index : ℕ) (c : ℤ)
    → enough (find_by (λ i. i.item_index == index) inv) c ≡ true
    → positive c ≤ first_stack index inv
unfolding first_stack
enough_first [] index c h = absurd (cc)
enough_first (i ∷ inv) index c h = ground (arith, enough_first inv index c)

all_enough_first :
    (need : Need) (inv : List InventoryItem) (index : ℕ)
    → all_enough need inv ≡ true
    → positive (count_of need index) ≤ first_stack index inv
unfolding all_enough count_of
all_enough_first [] inv index h = omega arith
all_enough_first ((j, c) ∷ need) inv index h = elim (ℕ_discrete j index) [
  | yes e ↦ ground (arith, enough_first inv j c, ap (λ k. first_stack k inv) e)
  | no n ↦ ground (arith, all_enough_first need inv index)
]

-- When ConsumeMaterials succeeds, every ItemIndex loses exactly the count that was needed of it, over
-- all its stacks, and the rest of the account is as before.
pub total-consume_materials :
    (p : Player) (need : Need) (deleted : List ℕ) (updated : List InventoryItem) (q : Player)
    → consume_materials p need ≡ some (deleted, updated, q)
    → ((index : ℕ)
        → total index q.inventory + positive (count_of need index) ≡ total index p.inventory)
      × (record q { inventory = p.inventory } ≡ p)
unfolding consume_materials
total-consume_materials p need deleted updated q e = (
  λ index.
      ground
        (arith, all_enough_first need p.inventory index, total-consume_loop need p.inventory index),
  ground arith,
)

-- The serials of an inventory are all different.
abbrev pub Unique : List InventoryItem → Type 0
Unique [] = Unit {0}
Unique (i ∷ inv) = All (λ j. j.serial ≢ i.serial) inv × Unique inv

not_there :
    (serial : ℕ) (inv : List InventoryItem)
    → All (λ j. j.serial ≢ serial) inv
    → find_by (λ i. i.serial == serial) inv ≡ none
not_there serial [] h = refl
not_there serial (i ∷ inv) h = ground (arith, not_there serial inv h.1)

-- What is left of an item when one unit of it is spent.
abbrev pub less_one : Option InventoryItem → Option InventoryItem
less_one none = none
less_one (some i) = if leb i.value 1 then none else some (record i { value = i.value - 1 })

spend_loop_lem :
    (serial other : ℕ) (inv : List InventoryItem) (s : SpentItem) (left : List InventoryItem)
    → Unique inv
    → spend_loop serial inv ≡ some (s, left)
    → find_by (λ i. i.serial == other) left ≡ (
        if serial == other
        then less_one (find_by (λ i. i.serial == other) inv)
        else find_by (λ i. i.serial == other) inv)
unfolding spend_loop
spend_loop_lem serial other [] s left u e = absurd (cc)
spend_loop_lem serial other (i ∷ inv) s left u e = elim (ℕ_discrete i.serial serial) [
  | yes hit ↦
      ground (arith, not_there i.serial inv u.0, ap (λ t. find_by (λ j. j.serial == t) inv) hit)
  | no miss ↦ elim (Option-cases (spend_loop serial inv)) [
    | inl r ↦ ground arith
    | inr ((s', left'), r) ↦ ground (arith, spend_loop_lem serial other inv s' left' u.1 r)
  ]
]

spend_loop-some :
    (serial : ℕ) (inv : List InventoryItem) (i : InventoryItem)
    → find_by (λ i. i.serial == serial) inv ≡ some i
    → spend_loop serial inv ≢ none
unfolding spend_loop
spend_loop-some serial [] i e r = cc
spend_loop-some serial (j ∷ inv) i e r = elim (Option-cases (spend_loop serial inv)) [
  | inl q ↦ ground (arith, spend_loop-some serial inv i)
  | inr (a, q) ↦ ground arith
]

-- SpendUnit takes one unit of the item with the given serial and drops an item of which no unit is
-- left; every other serial shows what it showed before. The serials of the inventory are all
-- different.
pub item-spend_unit :
    (p : Player) (serial other : ℕ) (s : SpentItem) (q : Player)
    → Unique p.inventory
    → spend_unit p serial ≡ some (s, q)
    → item q other ≡ (if serial == other then less_one (item p other) else item p other)
unfolding spend_unit item
item-spend_unit p serial other s q u e = elim (Option-cases (spend_loop serial p.inventory)) [
  | inl r ↦ ground arith
  | inr ((s', left), r) ↦ ground (arith, spend_loop_lem serial other p.inventory s' left u r)
]

-- SpendUnit succeeds on every item that is owned.
pub spend_unit-ne-none :
    (p : Player) (serial : ℕ) (i : InventoryItem)
    → item p serial ≡ some i
    → spend_unit p serial ≢ none
unfolding spend_unit item
spend_unit-ne-none p serial i e r = elim (Option-cases (spend_loop serial p.inventory)) [
  | inl q ↦ spend_loop-some serial p.inventory i e q
  | inr (a, q) ↦ ground arith
]
