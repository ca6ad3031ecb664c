-- ===== src/Services/Players/Shop.antt =====
-- player_service.go and consumables.go: attaching, buying, crafting and spending, over the catalog.
use fear_online_server.Prelude.{
  ℕ, zero, String, Bool, false, not, ◌&&◌, ltb, ◌==◌, if◌then◌else◌, List, [], ◌∷◌, ◌++◌, Option,
  none, some,
}
use fear_online_server.Prelude.Int.{ℤ, pos, negsuc, add_int}
use fear_online_server.Prelude.NatMap.{value_at, put}
use fear_online_server.Models.Item.{Time, InventoryItem, is_expired}
use fear_online_server.Models.Loadout.{Loadout, equip}
use fear_online_server.Models.Attachments.{attach, is_custom_slot}
use fear_online_server.Models.Player.{
  Player, item, Wallet, wallet_none, wallet_point, balance, debit, next_serial,
}
use fear_online_server.Models.Player.Materials.{
  Need, count_of, consume_materials, SpentItem, spend_unit,
}
use fear_online_server.Catalog.{Catalog, GameItem, no_game_item, RecipeMaterial, accepts}
use fear_online_server.Repositories.Exec.{
  Exec, pure, ◌>>=◌, ◌>>◌, or_raise, raise_if, player_not_found, item_not_owned, item_expired,
  part_not_compatible, item_unknown, item_not_for_sale, level_too_low, insufficient_funds,
  inventory_full, recipe_unknown, material_missing, consumable_missing,
}
use fear_online_server.Repositories.Interface.{PlayerRepository}
use fear_online_server.Services.Players.Grants.{store_price, add_to_inventory, new_item}

pub record BuyResult : Type 0 where
  pub player : Player
  pub item : InventoryItem
  pub is_new : Bool
  pub wallet : Wallet
  pub price : ℕ

pub record CraftResult : Type 0 where
  pub player : Player
  pub output : InventoryItem
  pub deleted : List ℕ
  pub updated : List InventoryItem
  pub price_point : ℕ

-- `int(level) < limit`.
abbrev pub below_level : ℕ → ℤ → Bool
below_level level (pos n) = ltb level n
below_level level (negsuc n) = false

-- The map `need`, in which the counts of an item that is listed twice are added.
unfoldable pub needs : List RecipeMaterial → Need → Need
unfolding count_of
needs [] need = need
needs (m ∷ ms) need =
    needs ms (put m.item_index (add_int (count_of need m.item_index) m.count) need)

abbrev pub item_or_zero : Option GameItem → GameItem
item_or_zero none = no_game_item
item_or_zero (some def) = def

-- `known && def.FunctionIndex == functionIndex && item.Value > 0`.
abbrev serves : Option GameItem → ℤ → InventoryItem → Bool
serves none function i = false
serves (some def) function i = same_int def.function_index function && ltb 0 i.value
  where
    same_int : ℤ → ℤ → Bool
    same_int (pos a) (pos b) = a == b
    same_int (negsuc a) (negsuc b) = a == b
    same_int _ _ = false

unfoldable pub find_consumable : Catalog → List InventoryItem → ℤ → Option InventoryItem
find_consumable c [] function = none
find_consumable c (i ∷ inv) function =
    if serves (value_at i.item_index c.items) function i
    then some i
    else find_consumable c inv function

module _ {S : Type 0} (players : PlayerRepository S) where
  -- The end of Buy, once the item has entered the inventory.
  unfoldable pub settle : String → Wallet → ℕ → InventoryItem × Bool × Player → Exec S BuyResult
  unfolding debit
  settle steam_id wallet price (bought, is_new, player) = do
    raise_if (is_new && (bought.serial == 0)) inventory_full
    applied ← players.commit_inventory steam_id player.inventory wallet price
    raise_if (not applied) insufficient_funds
    pure (record {
      player = debit player wallet price;
      item = bought;
      is_new = is_new;
      wallet = wallet;
      price = price;
    })

  -- The checks of Buy, of what the catalog says of the item.
  unfoldable pub sell :
      String
      → Player
      → (is_sell is_low : Bool) → Wallet × ℕ
      → InventoryItem × Bool × Player
      → Exec S BuyResult
  unfolding balance settle
  sell steam_id player is_sell is_low (wallet, price) added = do
    raise_if (not is_sell) item_not_for_sale
    raise_if is_low level_too_low
    raise_if (ltb 0 price && ltb (balance player wallet) price) insufficient_funds
    settle steam_id wallet price added

  -- The end of Craft: the player without the materials gets the item.
  unfoldable pub finish_craft :
      String → ℕ → List ℕ → List InventoryItem → Player → InventoryItem → Exec S CraftResult
  unfolding debit
  finish_craft steam_id price deleted updated left output = do
    let made = record left { inventory = left.inventory ++ (output ∷ []) }
    applied ← players.commit_inventory steam_id made.inventory wallet_point price
    raise_if (not applied) insufficient_funds
    pure (record {
      player = debit made wallet_point price;
      output = output;
      deleted = deleted;
      updated = updated;
      price_point = price;
    })

  -- The checks of Craft, of what the catalog says of the recipe.
  unfoldable pub forge :
      String
      → Player
      → (exist is_low : Bool) → ℕ
      → Option (List ℕ × List InventoryItem × Player)
      → (ℕ → InventoryItem)
      → Exec S CraftResult
  unfolding next_serial finish_craft
  forge steam_id player exist is_low price consumed output = do
    raise_if (not exist) recipe_unknown
    raise_if is_low level_too_low
    raise_if (ltb 0 price && ltb player.point price) insufficient_funds
    (deleted, updated, left) ← or_raise consumed material_missing
    raise_if (next_serial left == 0) inventory_full
    finish_craft steam_id price deleted updated left (output (next_serial left))

module _ {S : Type 0} (players : PlayerRepository S) (catalog : Catalog) where
  abbrev existing : String → Exec S Player
  existing steam_id = do found ← players.find steam_id; or_raise found player_not_found

  unfoldable pub attach_item : String → ℕ → ℕ → Time → Exec S (Player × InventoryItem)
  unfolding item is_expired is_custom_slot accepts attach
  attach_item steam_id parent_serial child_serial now = do
    player ← existing steam_id
    child ← or_raise (item player child_serial) item_not_owned
    parent ← or_raise (item player parent_serial) item_not_owned
    raise_if (is_expired child now) item_expired
    raise_if
        (is_custom_slot child.item_type && not (accepts catalog parent.item_index child.item_index))
        part_not_compatible
    let player' = record player {
      attachments = attach player.attachments parent_serial child_serial child.item_type;
    }
    players.save_attachments steam_id player'.attachments
    pure (player', child)

  -- The loop of ChangeWeapons; a serial of 0 is skipped.
  unfoldable pub equip_all : Player → Time → List ℕ → Loadout → Exec S Loadout
  unfolding item is_expired equip
  equip_all player now [] loadout = pure loadout
  equip_all player now (zero ∷ serials) loadout = equip_all player now serials loadout
  equip_all player now (serial ∷ serials) loadout = do
    owned ← or_raise (item player serial) item_not_owned
    raise_if (is_expired owned now) item_expired
    equip_all player now serials (equip loadout owned.item_type serial)

  unfoldable pub change_weapons : String → List ℕ → Time → Exec S Player
  unfolding equip_all
  change_weapons steam_id serials now = do
    player ← existing steam_id
    loadout ← equip_all player now serials player.loadout
    players.save_loadout steam_id loadout
    pure (record player { loadout = loadout })

  unfoldable pub buy : String → ℕ → Time → Exec S BuyResult
  unfolding store_price add_to_inventory sell
  buy steam_id item_index now = do
    player ← existing steam_id
    def ← or_raise (value_at item_index catalog.items) item_unknown
    sell players steam_id player def.is_sell (below_level player.level def.buy_level_limit)
        (store_price def) (add_to_inventory player def item_index now)

  unfoldable pub buy_custom_part : String → ℕ → ℕ → Time → Time → Exec S BuyResult
  unfolding item accepts buy attach_item
  buy_custom_part steam_id weapon_serial item_index now later = do
    player ← existing steam_id
    weapon ← or_raise (item player weapon_serial) item_not_owned
    raise_if (not (accepts catalog weapon.item_index item_index)) part_not_compatible
    result ← buy steam_id item_index now
    (mounted, child) ← attach_item steam_id weapon_serial result.item.serial later
    pure (record result { player = mounted })

  unfoldable pub craft : String → ℕ → Time → Exec S CraftResult
  unfolding needs consume_materials new_item forge
  craft steam_id recipe_id now = do
    player ← existing steam_id
    recipe ← or_raise (value_at recipe_id catalog.recipes) recipe_unknown
    let def = item_or_zero (value_at recipe.item_output catalog.items)
    forge players steam_id player recipe.exist (below_level player.level recipe.require_level)
        recipe.price_point (consume_materials player (needs recipe.materials []))
        (λ serial. new_item serial def recipe.item_output now)

  unfoldable pub spend_consumable : String → ℤ → Exec S (Player × SpentItem)
  unfolding find_consumable spend_unit
  spend_consumable steam_id function = do
    player ← existing steam_id
    found ← or_raise (find_consumable catalog player.inventory function) consumable_missing
    (spent, left) ← or_raise (spend_unit player found.serial) consumable_missing
    applied ← players.commit_inventory steam_id left.inventory wallet_none 0
    pure (left, spent)
