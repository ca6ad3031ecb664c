-- ===== src/Models/Runs.antt =====
-- The models at a concrete account.
use fear_online_server.Prelude.{ℕ, ◌+◌, ◌<◌, ◌≡◌, refl, true, false, arith, [], ◌∷◌, some}
use fear_online_server.Prelude.Int.{pos}
use fear_online_server.Models.Item.{InventoryItem}
use fear_online_server.Models.Loadout.{Loadout}
use fear_online_server.Models.Attachments.{Attachments}
use fear_online_server.Models.Player.{
  Player, no_player, item, serial_used, next_serial, purge_expired,
}
use fear_online_server.Models.Player.Serial.{next_serial_lem}
use fear_online_server.Models.Player.Purge.{IsOwned, purge_expired-IsOwned}
use fear_online_server.Models.Player.Materials.{
  Need, count_of, positive, consume_materials, spend_unit,
}
use fear_online_server.Models.Player.Materials.Conserve.{total, total-consume_materials}

abbrev rifle : InventoryItem
rifle = record {
  serial = 1;
  item_index = 100;
  value = 1;
  state = 1;
  item_type = 7;
  instance_aux = 0;
  expires_at = 50;
}

abbrev scrap : InventoryItem
scrap = record {
  serial = 2;
  item_index = 200;
  value = 5;
  state = 1;
  item_type = 9;
  instance_aux = 0;
  expires_at = 0;
}

abbrev scrap_after : InventoryItem
scrap_after = record scrap { value = 2 }

abbrev scrap_left : InventoryItem
scrap_left = record scrap { value = 4 }

abbrev rifle_slot : Loadout
rifle_slot = record { slot = 7; serial = 1 } ∷ []

abbrev scope : Attachments
scope = record { parent_serial = 1; child_serial = 2; slot = 0x3D } ∷ []

abbrev gunner : Player
gunner = record no_player {
  steam_id = "7";
  inventory = rifle ∷ scrap ∷ [];
  loadout = rifle_slot;
  attachments = scope;
  friends = record { friend_id = 4; steam_id = "8"; since = 1 } ∷ [];
  friend_requests = record { request_id = 9; steam_id = "6"; sent_at = 1 } ∷ [];
}

next_serial_lem_example :
    (0 < next_serial gunner)
    × (next_serial gunner < 0xFFFF)
    × (serial_used gunner.inventory (next_serial gunner) ≡ false)
    × ((t : ℕ) → 0 < t → t < next_serial gunner → serial_used gunner.inventory t ≡ true)
next_serial_lem_example = next_serial_lem gunner (ground arith)

gunner-IsOwned : IsOwned gunner
unfolding serial_used
gunner-IsOwned = record { loadout_owned = (refl, tt); attachments_owned = ((refl, refl), tt) }

purge_expired-IsOwned_example : IsOwned (purge_expired gunner 60).1
purge_expired-IsOwned_example = purge_expired-IsOwned gunner 60 gunner-IsOwned

abbrev three_scraps : Need
three_scraps = (200, pos 3) ∷ []

abbrev crafted : Player
crafted = record gunner { inventory = rifle ∷ scrap_after ∷ [] }

consume_gunner : consume_materials gunner three_scraps ≡ some ([], scrap_after ∷ [], crafted)
unfolding consume_materials
consume_gunner = refl

total-consume_materials_example :
    ((index : ℕ)
      → total index crafted.inventory + positive (count_of three_scraps index)
        ≡ total index gunner.inventory)
    × (record crafted { inventory = gunner.inventory } ≡ gunner)
total-consume_materials_example =
    total-consume_materials gunner three_scraps [] (scrap_after ∷ []) crafted consume_gunner

abbrev spent : Player
spent = record gunner { inventory = rifle ∷ scrap_left ∷ [] }

spend_gunner :
    spend_unit gunner 2
    ≡ some (record { serial = 2; used_up = false; remaining = scrap_left }, spent)
unfolding spend_unit
spend_gunner = refl

gunner-scrap : item gunner 2 ≡ some scrap
unfolding item
gunner-scrap = refl
