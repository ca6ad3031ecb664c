-- ===== src/Services/Players.antt =====
-- player_service.go: Equip, Detach and Rename, with the other calls in the child modules. The clock is an
-- argument of each method that reads it.
pub mod Equipment
pub mod Grants
pub mod Shop
pub mod Purchase
pub mod Crafting
pub mod Needed
pub mod Granted
pub mod Failure
pub mod Login
mod Runs
use fear_online_server.Prelude.{ℕ, String}
use fear_online_server.Models.Item.{Time, InventoryItem, is_expired}
use fear_online_server.Models.Loadout.{equip}
use fear_online_server.Models.Attachments.{detach}
use fear_online_server.Models.Player.{Player, item}
use fear_online_server.Repositories.Exec.{
  Exec, pure, ◌>>=◌, ◌>>◌, or_raise, raise_if, player_not_found, item_not_owned, item_expired,
}
use fear_online_server.Repositories.Interface.{PlayerRepository}

module _ {S : Type 0} (players : PlayerRepository S) where
  unfoldable pub equip_item : String → ℕ → Time → Exec S Player
  unfolding item is_expired equip
  equip_item steam_id serial now = do
    found ← players.find steam_id
    player ← or_raise found player_not_found
    owned ← or_raise (item player serial) item_not_owned
    raise_if (is_expired owned now) item_expired
    let player' = record player { loadout = equip player.loadout owned.item_type serial }
    players.save_loadout steam_id player'.loadout
    pure player'

  unfoldable pub detach_item : String → ℕ → ℕ → Exec S (Player × InventoryItem)
  unfolding item detach
  detach_item steam_id parent_serial child_serial = do
    found ← players.find steam_id
    player ← or_raise found player_not_found
    child ← or_raise (item player child_serial) item_not_owned
    let player' = record player {
      attachments = detach player.attachments parent_serial child_serial;
    }
    players.save_attachments steam_id player'.attachments
    pure (player', child)

  unfoldable pub rename : String → String → Exec S Player
  rename steam_id name = do
    players.set_name steam_id name
    found ← players.find steam_id
    or_raise found player_not_found
