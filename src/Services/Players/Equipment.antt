-- ===== src/Services/Players/Equipment.antt =====
-- What equipping leaves in the in-memory stores.
use fear_online_server.Prelude.{ℕ, ◌≡◌, arith, eq_iff, some, false}
use fear_online_server.Models.Item.{Time, InventoryItem, is_expired}
use fear_online_server.Models.Loadout.{equip, equipped, equipped-equip}
use fear_online_server.Models.Player.{Player, item}
use fear_online_server.Repositories.Memory.{Store, memory_players, update_player}
use fear_online_server.Repositories.Table.{lookup, lookup-insert}
use fear_online_server.Services.Players.{equip_item}

-- Equipping an owned item that has not expired stores, for that account, a loadout that shows the item
-- in its slot, and the rest of the account as before.
pub equip_item_lem :
    (s : Store) (p : Player) (i : InventoryItem) (serial : ℕ) (now : Time)
    → lookup p.steam_id s.players ≡ some p
    → item p serial ≡ some i
    → is_expired i now ≡ false
    → let after = (equip_item memory_players p.steam_id serial now s).1 in
      (lookup p.steam_id after.players
        ≡ some (record p { loadout = equip p.loadout i.item_type serial }))
      × (equipped i.item_type (equip p.loadout i.item_type serial)
          ≡ some (record { slot = i.item_type; serial = serial }))
unfolding equip_item update_player
equip_item_lem s p i serial now e f g = ground (
  arith,
  e,
  f,
  g,
  eq_iff p.steam_id p.steam_id,
  lookup-insert p.steam_id p.steam_id (record p { loadout = equip p.loadout i.item_type serial })
      s.players,
  equipped-equip p.loadout i.item_type serial i.item_type,
)
