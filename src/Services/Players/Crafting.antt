-- ===== src/Services/Players/Crafting.antt =====
-- What crafting takes and what it gives.
use mathlib.Core.Logic.{◌≢◌}
use fear_online_server.Prelude.{
  ℕ, ◌+◌, ◌^◌, ◌<◌, String, ◌≡◌, eq_iff, refl, sym, ◌∙◌, arith, ap, ◌==◌, Bool, true, false,
  Bool-cases, ltb, ◌&&◌, if◌then◌else◌, List, [], ◌∷◌, ◌++◌, none, some, Option-cases, inl, inr,
}
use fear_online_server.Prelude.NatMap.{value_at}
use fear_online_server.Models.Item.{Time, InventoryItem}
use fear_online_server.Models.Player.{Player, balance, debit, wallet_point, next_serial}
use fear_online_server.Models.Player.Materials.{Need, count_of, positive, consume_materials}
use fear_online_server.Models.Player.Materials.Conserve.{total, total-consume_materials}
use fear_online_server.Catalog.{Catalog, Recipe}
use fear_online_server.Repositories.Exec.{ok}
use fear_online_server.Repositories.Memory.{Store, memory_players, commit_inventory}
use fear_online_server.Repositories.Table.{lookup, lookup-insert}
use fear_online_server.Services.Players.Grants.{new_item}
use fear_online_server.Services.Players.Shop.{
  CraftResult, below_level, item_or_zero, needs, finish_craft, forge, craft,
}
use fear_online_server.Services.Players.Needed.{needed, count_of-needs}

total-append :
    (index : ℕ) (inv : List InventoryItem) (i : InventoryItem)
    → total index (inv ++ (i ∷ []))
      ≡ total index inv + (if i.item_index == index then i.value else 0)
unfolding total
total-append index [] i = omega arith
total-append index (j ∷ inv) i = omega (arith, total-append index inv i)

-- The account that finish_craft answers and stores.
finish_craft_lem :
    (s : Store) (p left : Player) (price : ℕ) (deleted : List ℕ) (updated : List InventoryItem)
    (output : InventoryItem) (r : CraftResult)
    → p.point < 2 ^ 64
    → lookup p.steam_id s.players ≡ some p
    → record left { inventory = p.inventory } ≡ p
    → (finish_craft memory_players p.steam_id price deleted updated left output s).0 ≡ ok r
    → (r.player.inventory ≡ left.inventory ++ (output ∷ []))
      × (r.output ≡ output)
      × (r.player.point + price ≡ p.point)
      × (lookup p.steam_id
            (finish_craft memory_players p.steam_id price deleted updated left output s).1.players
          ≡ some r.player)
unfolding finish_craft commit_inventory debit balance
finish_craft_lem s p left price deleted updated output r funded q e h = ground (
  arith,
  eq_iff p.steam_id p.steam_id,
  ap (λ p. p.point) e,
  lookup-insert p.steam_id p.steam_id
      (record (debit p wallet_point price) { inventory = left.inventory ++ (output ∷ []) })
      s.players,
)

-- Where the account and the recipe are there, Craft goes on to its checks.
pub craft-forge :
    (c : Catalog) (s : Store) (id : String) (p : Player) (recipe_id : ℕ) (recipe : Recipe)
    (now : Time)
    → lookup id s.players ≡ some p
    → value_at recipe_id c.recipes ≡ some recipe
    → craft memory_players c id recipe_id now s
      ≡ forge memory_players id p recipe.exist
          (below_level p.level recipe.require_level)
          recipe.price_point
          (consume_materials p (needs recipe.materials []))
          (λ serial.
            new_item serial
              (item_or_zero (value_at recipe.item_output c.items))
              recipe.item_output
              now)
          s
unfolding craft
craft-forge c s id p recipe_id recipe now q d = rw (q, d) refl

above_zero : (n : ℕ) → (n == 0) ≡ false → 0 < n
above_zero n h = ground arith

forge-none :
    (s : Store) (p : Player) (exist is_low : Bool) (price : ℕ) (output : ℕ → InventoryItem)
    (r : CraftResult)
    → (forge memory_players p.steam_id p exist is_low price none output s).0 ≢ ok r
unfolding forge
forge-none s p exist is_low price output r e = ground arith

forge-some :
    (s : Store) (p : Player) (exist is_low : Bool) (price : ℕ) (deleted : List ℕ)
    (updated : List InventoryItem) (left : Player) (output : ℕ → InventoryItem) (r : CraftResult)
    → (forge memory_players p.steam_id p exist is_low price
        (some (deleted, updated, left))
        output
        s).0
      ≡ ok r
    → (0 < next_serial left)
      × (forge memory_players p.steam_id p exist is_low price
            (some (deleted, updated, left))
            output
            s
          ≡ finish_craft memory_players p.steam_id price deleted updated left
              (output (next_serial left))
              s)
unfolding forge
forge-some s p false is_low price deleted updated left output r e = absurd (cc)
forge-some s p true true price deleted updated left output r e = absurd (cc)
forge-some s p true false price deleted updated left output r e =
    elim (Bool-cases (ltb 0 price && ltb p.point price)) [
      | inl poor ↦ absurd (ground (arith, rw poor at e))
      | inr rich ↦ elim (Bool-cases (next_serial left == 0)) [
        | inl full ↦ absurd (ground (arith, rw (rich, full) at e))
        | inr free ↦ (above_zero (next_serial left) free, rw (rich, free) refl)
      ]
    ]

forge_lem :
    (s : Store) (p : Player) (exist is_low : Bool) (price : ℕ) (need : Need)
    (output : ℕ → InventoryItem) (r : CraftResult)
    → p.point < 2 ^ 64
    → lookup p.steam_id s.players ≡ some p
    → (forge memory_players p.steam_id p exist is_low price (consume_materials p need) output s).0
      ≡ ok r
    → ((index : ℕ)
        → total index r.player.inventory + positive (count_of need index)
          ≡ total index p.inventory + (if r.output.item_index == index then r.output.value else 0))
      × ((k : ℕ) × (0 < k) × (r.output ≡ output k))
      × (r.player.point + price ≡ p.point)
      × (lookup p.steam_id
            (forge memory_players p.steam_id p exist is_low price
              (consume_materials p need)
              output
              s).1.players
          ≡ some r.player)
forge_lem s p exist is_low price need output r funded q e =
    elim (Option-cases (consume_materials p need)) [
      | inl d ↦ absurd (forge-none s p exist is_low price output r (rw d at e))
      | inr ((deleted, updated, left), d) ↦
          let (taken, rest) = total-consume_materials p need deleted updated left d in
          let made = output (next_serial left) in
          let (positive_serial, step) =
            forge-some s p exist is_low price deleted updated left output r (rw d at e) in
          let (inventory, answer, paid, stored) =
            finish_craft_lem s p left price deleted updated made r funded q rest
              (sym (ap (λ x. x.0) step) ∙ (rw d at e)) in
          (
            λ index. omega (
              arith,
              taken index,
              ap (total index) inventory ∙ total-append index left.inventory made,
              ap (λ o. if o.item_index == index then o.value else 0) answer,
            ),
            (next_serial left, positive_serial, answer),
            paid,
            rw (d, step) stored,
          )
    ]

-- Crafting by a stored account of fewer than 2^64 points that succeeds takes, of every item index, exactly
-- the sum of the counts that the recipe's materials list of it, an int that wraps, or nothing where
-- that is negative, and gives the output of the recipe once; it takes the price of the recipe out of
-- the points, and the stored account is the one that is answered.
pub craft_lem :
    (c : Catalog) (s : Store) (p : Player) (recipe_id : ℕ) (recipe : Recipe) (now : Time)
    (r : CraftResult)
    → p.point < 2 ^ 64
    → lookup p.steam_id s.players ≡ some p
    → value_at recipe_id c.recipes ≡ some recipe
    → (craft memory_players c p.steam_id recipe_id now s).0 ≡ ok r
    → ((index : ℕ)
        → total index r.player.inventory + needed index recipe
          ≡ total index p.inventory + (if recipe.item_output == index then 1 else 0))
      × (r.player.point + recipe.price_point ≡ p.point)
      × (lookup p.steam_id (craft memory_players c p.steam_id recipe_id now s).1.players
          ≡ some r.player)
unfolding new_item
craft_lem c s p recipe_id recipe now r funded q d e =
    let step = craft-forge c s p.steam_id p recipe_id recipe now q d in
    let output : ℕ → InventoryItem = λ serial.
      new_item serial (item_or_zero (value_at recipe.item_output c.items)) recipe.item_output now in
    let (totals, (k, positive_serial, made), paid, stored) =
      forge_lem s p recipe.exist (below_level p.level recipe.require_level) recipe.price_point
        (needs recipe.materials []) output r funded q (sym (ap (λ x. x.0) step) ∙ e) in
    (
      λ index. omega (
        arith,
        totals index,
        ap positive (count_of-needs index recipe.materials),
        ap (λ o. if o.item_index == index then o.value else 0) made,
      ),
      paid,
      rw step stored,
    )
