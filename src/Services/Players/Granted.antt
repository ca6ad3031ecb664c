-- ===== src/Services/Players/Granted.antt =====
-- How AddToInventory lets an item in, and what it leaves of the others.
pub mod First
pub mod Ends
use mathlib.Core.Logic.{◌≢◌}
use fear_online_server.Prelude.{
  ℕ, ◌<◌, ◌≡◌, refl, Bool, false, ltb, ◌==◌, if◌then◌else◌, arith, ap, sym, subst, ◌∙◌, if-cases,
  ◌+◌, ◌*◌, ◌%◌, ◌^◌, ◌⊎◌, length, Option, none, true, Bool-cases, List, [], ◌∷◌, ◌++◌, All, some,
  Option-cases, inl, inr, find_by,
}
use fear_online_server.Prelude.Int.{ℤ, pos, negsuc}
use fear_online_server.Models.Item.{Time, InventoryItem, second}
use fear_online_server.Models.Player.Materials.{positive}
use fear_online_server.Models.Player.{Player, item, next_serial, serial_used}
use fear_online_server.Models.Player.Serial.{next_serial_lem}
use fear_online_server.Models.Player.Materials.Conserve.{Unique}
use fear_online_server.Catalog.{GameItem}
use fear_online_server.Services.Players.Grants.{
  rental_seconds, add_seconds, expiry_for, change_first, extended, one_more, new_item, appended,
  changed_or_new, add_to_inventory,
}
use fear_online_server.Services.Players.Granted.First.{
  first_of, change_first_lem, find-append, change_first-none, change_first-some,
}
use fear_online_server.Services.Players.Granted.Ends.{
  rented_for, positive-rental_seconds, extended_lem, expiry_for_lem,
}

-- The item that is answered stands under its serial, and every other serial shows what it showed.
abbrev Shows : Player → ℕ → InventoryItem → Player → Type 0
Shows p other i q = item q other ≡ (if i.serial == other then some i else item p other)

-- A rented item that is there already: it now ends the rental's time after its end, or after now where it
-- has ended, and all else of it is as it was.
abbrev Prolongs : Player → GameItem → ℕ → Time → ℕ → InventoryItem × Bool × Player → Type 0
Prolongs p def index now other (i, is_new, q) =
    (0 < rented_for def)
    × (is_new ≡ false)
    × ((old : InventoryItem) × (first_of index p.inventory ≡ some old)
        × (i ≡ record old {
          expires_at =
              (if ltb old.expires_at now then now else old.expires_at) + rented_for def * second;
        }))
    × Shows p other i q

-- A merging item that is there already: its value, a uint32, is one higher.
abbrev Raises : Player → GameItem → ℕ → ℕ → InventoryItem × Bool × Player → Type 0
Raises p def index other (i, is_new, q) =
    (rented_for def ≡ 0)
    × (def.is_merge ≡ true)
    × (is_new ≡ false)
    × ((old : InventoryItem) × (first_of index p.inventory ≡ some old)
        × (i ≡ record old { value = (old.value + 1) % 2 ^ 32 }))
    × Shows p other i q

-- An item that is neither prolonged nor raised: one of it joins the others at the end, under a serial
-- that no item has, and a rental ends its time after now.
abbrev Joins : Player → GameItem → ℕ → Time → ℕ → InventoryItem × Bool × Player → Type 0
Joins p def index now other (i, is_new, q) =
    ((first_of index p.inventory ≡ none) ⊎ ((rented_for def ≡ 0) × (def.is_merge ≡ false)))
    × (is_new ≡ true)
    × ((i.item_index ≡ index) × (i.value ≡ 1))
    × (i.expires_at ≡ (if rented_for def == 0 then 0 else now + rented_for def * second))
    × ((0 < i.serial) × (serial_used p.inventory i.serial ≡ false))
    × (q.inventory ≡ p.inventory ++ (i ∷ []))
    × Shows p other i q

-- How an item of an index enters an inventory.
abbrev pub Enters : Player → GameItem → ℕ → Time → ℕ → InventoryItem × Bool × Player → Type 0
Enters p def index now other answer =
    Prolongs p def index now other answer
    ⊎ (Raises p def index other answer ⊎ Joins p def index now other answer)

shows :
    (p : Player) (index other : ℕ) (f : InventoryItem → InventoryItem) (old : InventoryItem)
    (after : List InventoryItem)
    → ((j : InventoryItem) → (f j).serial ≡ j.serial)
    → Unique p.inventory
    → change_first index f p.inventory ≡ some (f old, after)
    → Shows p other (f old) (record p { inventory = after })
unfolding item
shows p index other f old after k u e =
    change_first_lem index other f p.inventory (f old) after k u e

joins :
    (p : Player) (def : GameItem) (index : ℕ) (now : Time) (other : ℕ)
    → length p.inventory < 0xFFFE
    → rented_for def * second < 2 ^ 63
    → (first_of index p.inventory ≡ none) ⊎ ((rented_for def ≡ 0) × (def.is_merge ≡ false))
    → Joins p def index now other (appended p (new_item (next_serial p) def index now))
unfolding item new_item
joins p def index now other room short h =
    let (above_zero, upto, free, least) = next_serial_lem p room in
    let i = new_item (next_serial p) def index now in
    let kept : (next_serial p == 0) ≡ false = ground arith in
    rw kept (
      h,
      refl,
      (refl, refl),
      expiry_for_lem def now short,
      (above_zero, free),
      refl,
      find-append other p.inventory i free,
    )

rented_Enters :
    (p : Player) (def : GameItem) (index : ℕ) (now : Time) (other : ℕ)
    → Unique p.inventory
    → length p.inventory < 0xFFFE
    → rented_for def * second < 2 ^ 63
    → ltb 0 (rental_seconds def.use_time) ≡ true
    → Enters p def index now other (
        changed_or_new p
          (new_item (next_serial p) def index now)
          (change_first index (extended def now) p.inventory))
rented_Enters p def index now other u room short rented =
    let i = new_item (next_serial p) def index now in
    let answer = changed_or_new p i in
    elim (Option-cases (first_of index p.inventory)) [
      | inl d ↦
          subst (Enters p def index now other)
            (sym (ap answer (change_first-none index (extended def now) p.inventory d)))
            (inr (inr (joins p def index now other room short (inl d))))
      | inr (old, d) ↦
          let (after, e) = change_first-some index (extended def now) p.inventory old d in
          subst (Enters p def index now other) (sym (ap answer e)) (
            inl (
              ground (arith, positive-rental_seconds def.use_time),
              refl,
              (old, d, extended_lem def now old short),
              shows p index other (extended def now) old after (unfold extended in λ j. refl) u e,
            ))
    ]

merging_Enters :
    (p : Player) (def : GameItem) (index : ℕ) (now : Time) (other : ℕ)
    → Unique p.inventory
    → length p.inventory < 0xFFFE
    → rented_for def * second < 2 ^ 63
    → rented_for def ≡ 0
    → def.is_merge ≡ true
    → Enters p def index now other (
        changed_or_new p
          (new_item (next_serial p) def index now)
          (change_first index one_more p.inventory))
merging_Enters p def index now other u room short bought merge =
    let i = new_item (next_serial p) def index now in
    let answer = changed_or_new p i in
    elim (Option-cases (first_of index p.inventory)) [
      | inl d ↦
          subst (Enters p def index now other)
            (sym (ap answer (change_first-none index one_more p.inventory d)))
            (inr (inr (joins p def index now other room short (inl d))))
      | inr (old, d) ↦
          let (after, e) = change_first-some index one_more p.inventory old d in
          subst (Enters p def index now other) (sym (ap answer e)) (
            inr (
              inl (
                bought,
                merge,
                refl,
                (old, d, unfold one_more in refl),
                shows p index other one_more old after (unfold one_more in λ j. refl) u e,
              )))
    ]

-- What enters an inventory of distinct serials and fewer than 65534 items, where its rental is shorter
-- than 2^63 nanoseconds: a rented item whose index is there prolongs the first item of that index
-- from its end, or from now where it has ended; a merging item that is not rented and whose index is
-- there raises the value of the first item of that index by one, as a uint32; any other item joins
-- the others as a new item of value 1, under a free serial other than 0, with an end its rental's time
-- after now, or 0 where it is not rented. The item that is answered stands under its serial, and no
-- other serial shows a change.
pub add_to_inventory_lem :
    (p : Player) (def : GameItem) (index : ℕ) (now : Time) (other : ℕ)
    → Unique p.inventory
    → length p.inventory < 0xFFFE
    → rented_for def * second < 2 ^ 63
    → Enters p def index now other (add_to_inventory p def index now)
unfolding add_to_inventory
add_to_inventory_lem p def index now other u room short =
    if-cases (Enters p def index now other) (ltb 0 (rental_seconds def.use_time)) _ _
      (rented_Enters p def index now other u room short)
      λ bought.
        let free_of_time : rented_for def ≡ 0 =
          ground (arith, positive-rental_seconds def.use_time) in
        if-cases (Enters p def index now other) def.is_merge _ _
          (merging_Enters p def index now other u room short free_of_time)
          λ single. inr (inr (joins p def index now other room short (inr (free_of_time, single))))
