-- ===== src/Services/Players/Runs.antt =====
-- Equipping, buying and crafting with a small catalog.
use fear_online_server.Prelude.{ℕ, ◌+◌, ◌≡◌, refl, arith, true, ◌==◌, if◌then◌else◌, [], ◌∷◌, some}
use fear_online_server.Prelude.Int.{pos}
use fear_online_server.Models.Item.{InventoryItem, no_item, is_expired}
use fear_online_server.Models.Loadout.{equip, equipped}
use fear_online_server.Models.Player.{Player, no_player, item, balance, wallet_point}
use fear_online_server.Models.Player.Materials.Conserve.{total}
use fear_online_server.Catalog.{Catalog, GameItem, no_game_item, Recipe}
use fear_online_server.Catalog.Load.{empty_catalog}
use fear_online_server.Repositories.Exec.{ok, item_unknown}
use fear_online_server.Repositories.Memory.{Store, memory_players, commit_inventory}
use fear_online_server.Repositories.Table.{lookup}
use fear_online_server.Services.Players.{equip_item}
use fear_online_server.Services.Players.Equipment.{equip_item_lem}
use fear_online_server.Services.Players.Grants.{add_to_inventory}
use fear_online_server.Services.Players.Shop.{BuyResult, CraftResult, buy, craft}
use fear_online_server.Services.Players.Purchase.{buy_lem}
use fear_online_server.Services.Players.Needed.{needed}
use fear_online_server.Services.Players.Crafting.{craft_lem}
use fear_online_server.Services.Players.Granted.{Enters, add_to_inventory_lem}
use fear_online_server.Services.Players.Failure.{call_of, buys, call_unchanged}

abbrev rifle : InventoryItem
rifle = record no_item { serial = 1; item_index = 100; value = 3; state = 1; item_type = 7 }

abbrev ada : Player
ada = record no_player { steam_id = "7"; level = 3; point = 90; inventory = rifle ∷ [] }

abbrev town : Store
town = record { players = ("7", ada) ∷ []; clans = [] }

equip_item_lem_example :
    (lookup "7" (equip_item memory_players "7" 1 9 town).1.players
      ≡ some (record ada { loadout = equip [] 7 1 }))
    × (equipped 7 (equip [] 7 1) ≡ some (record { slot = 7; serial = 1 }))
unfolding item is_expired
equip_item_lem_example = equip_item_lem town ada rifle 1 9 refl refl refl

abbrev scrap : GameItem
scrap = record no_game_item {
  item_index = 200;
  high_group = pos 1;
  middle_group = pos 1;
  point_price = 30;
  is_sell = true;
  is_merge = true;
}

abbrev sword : Recipe
sword = record {
  id = 5;
  exist = true;
  represent_index = 0;
  require_level = pos 2;
  price_type = pos 0;
  price_point = 10;
  price_cash = 0;
  materials =
      record { item_index = 100; count = pos 1 } ∷ record { item_index = 100; count = pos 2 } ∷ [];
  item_output = 200;
  count_output = pos 1;
}

abbrev shelf : Catalog
shelf = record empty_catalog { items = (200, scrap) ∷ []; recipes = (5, sword) ∷ [] }

abbrev scrap_item : InventoryItem
scrap_item = record no_item { serial = 2; item_index = 200; value = 1; state = 1; item_type = 11 }

abbrev bought : BuyResult
bought = record {
  player = record ada { point = 60; inventory = rifle ∷ scrap_item ∷ [] };
  item = scrap_item;
  is_new = true;
  wallet = wallet_point;
  price = 30;
}

buys_scrap : (buy memory_players shelf "7" 200 9 town).0 ≡ ok bought
unfolding buy commit_inventory
buys_scrap = refl

buy_lem_example :
    (balance bought.player bought.wallet + bought.price ≡ balance ada bought.wallet)
    × ((bought.player.point + bought.player.cash) + bought.price ≡ ada.point + ada.cash)
    × (lookup "7" (buy memory_players shelf "7" 200 9 town).1.players ≡ some bought.player)
buy_lem_example = buy_lem shelf town ada 200 9 bought (omega arith, omega arith) refl buys_scrap

abbrev crafted : CraftResult
crafted = record {
  player = record ada { point = 80; inventory = record scrap_item { serial = 1 } ∷ [] };
  output = record scrap_item { serial = 1 };
  deleted = 1 ∷ [];
  updated = [];
  price_point = 10;
}

crafts_sword : (craft memory_players shelf "7" 5 9 town).0 ≡ ok crafted
unfolding craft commit_inventory
crafts_sword = refl

craft_lem_example :
    ((index : ℕ)
      → total index crafted.player.inventory + needed index sword
        ≡ total index ada.inventory + (if sword.item_output == index then 1 else 0))
    × (crafted.player.point + sword.price_point ≡ ada.point)
    × (lookup "7" (craft memory_players shelf "7" 5 9 town).1.players ≡ some crafted.player)
craft_lem_example = craft_lem shelf town ada 5 sword 9 crafted (omega arith) refl refl crafts_sword

abbrev holder : Player
holder = record ada { inventory = rifle ∷ scrap_item ∷ [] }

add_to_inventory_lem_example : Enters holder scrap 200 9 2 (add_to_inventory holder scrap 200 9)
add_to_inventory_lem_example =
    add_to_inventory_lem holder scrap 200 9 2 ((λ e. absurd (omega (arith, e)), tt), (tt, tt))
      (omega arith) (omega arith)

unknown_item : (call_of shelf (buys "7" 4 9) town).0 ≡ some item_unknown
unfolding buy
unknown_item = refl

call_unchanged_example : (call_of shelf (buys "7" 4 9) town).1 ≡ town
call_unchanged_example = call_unchanged shelf (buys "7" 4 9) town item_unknown unknown_item
