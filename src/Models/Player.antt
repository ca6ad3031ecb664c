-- ===== src/Models/Player.antt =====
-- server/internal/models/player.go, friend.go and the Player methods of inventory.go.
pub mod Serial
pub mod Purge
pub mod Materials
pub mod Social
use fear_online_server.Prelude.{
  ℕ, zero, suc, ◌+◌, ◌-◌, ◌%◌, ◌^◌, String, Bool, true, false, not, ◌&&◌, ◌||◌, ltb, leb, ◌==◌,
  ◌=ₛ◌, if◌then◌else◌, List, [], ◌∷◌, ◌++◌, map, length, Option, none, some, find_by, filter_by,
  any_by, remove_by, update_by,
}
use fear_online_server.Prelude.Int.{ℤ, pos, negsuc}
use fear_online_server.Models.Item.{Time, InventoryItem, is_expired}
use fear_online_server.Models.Loadout.{Loadout}
use fear_online_server.Models.Attachments.{Attachments}
use fear_online_server.Models.Records.{Records, no_records}

pub record Friend : Type 0 where
  pub friend_id : ℕ
  pub steam_id : String
  pub since : Time

pub record FriendRequest : Type 0 where
  pub request_id : ℕ
  pub steam_id : String
  pub sent_at : Time

pub record Player : Type 0 where
  pub steam_id : String
  pub name : String
  pub exp : ℕ
  pub level : ℕ
  pub point : ℕ
  pub cash : ℕ
  pub inventory : List InventoryItem
  pub loadout : Loadout
  pub attachments : Attachments
  pub records : Records
  pub clan_name : String
  pub friends : List Friend
  pub friend_requests : List FriendRequest
  pub created_at : Time
  pub last_login : Time

-- Go's zero value.
abbrev pub no_player : Player
no_player = record {
  steam_id = "";
  name = "";
  exp = 0;
  level = 0;
  point = 0;
  cash = 0;
  inventory = [];
  loadout = [];
  attachments = [];
  records = no_records;
  clan_name = "";
  friends = [];
  friend_requests = [];
  created_at = 0;
  last_login = 0;
}

unfoldable pub item : Player → ℕ → Option InventoryItem
item p serial = find_by (λ i. i.serial == serial) p.inventory

unfoldable pub item_by_index : Player → ℕ → Option InventoryItem
item_by_index p index = find_by (λ i. i.item_index == index) p.inventory

-- `gone[serial]`, for the set of the removed serials.
unfoldable pub mem_serial : ℕ → List ℕ → Bool
mem_serial s serials = any_by (λ t. t == s) serials

-- The serials that PurgeExpired returns, and the player afterwards.
unfoldable pub purge_expired : Player → Time → List ℕ × Player
unfolding mem_serial
purge_expired p now =
    let removed = map (λ i. i.serial) (filter_by (λ i. is_expired i now) p.inventory) in
    let gone = λ (s : ℕ). mem_serial s removed in
    if length removed == 0 then ([], p) else (
      removed,
      record p {
        inventory = filter_by (λ i. not (is_expired i now)) p.inventory;
        attachments =
            filter_by (λ m. not (gone m.child_serial) && not (gone m.parent_serial)) p.attachments;
        loadout = filter_by (λ e. not (gone e.serial)) p.loadout;
      },
    )

-- `used[serial]`.
unfoldable pub serial_used : List InventoryItem → ℕ → Bool
serial_used inventory serial = any_by (λ i. i.serial == serial) inventory

-- `for serial := …; serial < 0xFFFF; serial++`, with the rounds that are left.
unfoldable pub serial_loop : ℕ → ℕ → List InventoryItem → ℕ
unfolding serial_used
serial_loop zero serial inventory = 0
serial_loop (suc rounds) serial inventory = elim (serial_used inventory serial) [
  | true ↦ serial_loop rounds (serial + 1) inventory
  | false ↦ serial
]

unfoldable pub next_serial : Player → ℕ
unfolding serial_loop
next_serial p = serial_loop 0xFFFE 1 p.inventory

pub data Wallet : Type 0 where
  wallet_none wallet_point wallet_cash : Wallet

unfoldable pub balance : Player → Wallet → ℕ
balance p wallet_cash = p.cash
balance p wallet_point = p.point
balance p wallet_none = p.point

-- uint64 subtraction wraps.
unfoldable pub debit : Player → Wallet → ℕ → Player
debit p wallet_cash amount = record p { cash = (p.cash + 2 ^ 64 - amount) % 2 ^ 64 }
debit p wallet_point amount = record p { point = (p.point + 2 ^ 64 - amount) % 2 ^ 64 }
debit p wallet_none amount = p
