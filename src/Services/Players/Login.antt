-- ===== src/Services/Players/Login.antt =====
-- player_service.go: logging in, and the account of a new player. Each read of the clock is an argument.
use Prim.Native.String
use fear_online_server.Prelude.{
  ℕ, ◌+◌, ◌-◌, ◌%◌, ◌^◌, String, Bool, true, false, not, ◌&&◌, ◌||◌, ltb, leb, ◌==◌, if◌then◌else◌,
  List, [], ◌∷◌, ◌++◌, length, any_by, Option, none, some,
}
use fear_online_server.Prelude.NatMap.{value_at}
use fear_online_server.Models.Item.{Time, InventoryItem, slot_character_atc, slot_character_tf}
use fear_online_server.Models.Loadout.{Loadout, equip}
use fear_online_server.Models.Player.{Player, no_player, item, wallet_none, purge_expired}
use fear_online_server.Catalog.{Catalog, starter_items, item_type}
use fear_online_server.Repositories.Exec.{Exec, Result, err, already_exists, pure, ◌>>=◌, ◌>>◌}
use fear_online_server.Repositories.Interface.{PlayerRepository}
use fear_online_server.Services.Players.Grants.{new_item}

-- Positions in a steam id are those of its bytes, and a steam id is ASCII.
unfoldable pub placeholder_name : String → String
placeholder_name s =
    let n = String.len s in
    if leb 5 n then String.◌++◌ "Player" (String.slice s (n - 5) n) else String.◌++◌ "Player" s

-- The loop over the starter items, at a serial.
unfoldable pub grant_starters : Catalog → List ℕ → ℕ → Time → Player → Player
unfolding new_item item_type
grant_starters c [] serial now p = p
grant_starters c (index ∷ indices) serial now p = elim (value_at index c.items) [
  | none ↦ grant_starters c indices serial now p
  | some def ↦ grant_starters c indices ((serial + 1) % 2 ^ 16) now (record p {
    inventory = p.inventory ++ (new_item serial def index now ∷ []);
    loadout = p.loadout ++ (record { slot = item_type def; serial = serial } ∷ []);
  })
]

unfoldable pub new_account : Catalog → (starting_point starting_cash : ℕ) → String → Time → Player
unfolding grant_starters placeholder_name
new_account c starting_point starting_cash steam_id now =
    grant_starters c starter_items 1 now (record no_player {
      steam_id = steam_id;
      name = placeholder_name steam_id;
      level = 1;
      point = starting_point;
      cash = starting_cash;
    })

-- Whether an entry of the loadout stands in its item's slot.
abbrev in_slot : Option InventoryItem → ℕ → Bool
in_slot none slot = false
in_slot (some i) slot = i.item_type == slot

-- `equipped[slot]`, for the map that the first loop fills.
unfoldable pub slot_filled : Player → ℕ → Bool
unfolding item
slot_filled p slot = any_by (λ e. e.slot == slot && in_slot (item p e.serial) e.slot) p.loadout

-- The second loop: `equipped` holds the slots of the first loop and those that are filled here.
unfoldable pub restore_characters :
    (filled : ℕ → Bool) → List InventoryItem → Loadout → Bool → Loadout × Bool
unfolding equip
restore_characters filled [] loadout changed = (loadout, changed)
restore_characters filled (i ∷ inv) loadout changed =
    if (i.item_type == slot_character_atc || i.item_type == slot_character_tf)
      && not (filled i.item_type)
    then restore_characters (λ slot. slot == i.item_type || filled slot) inv
        (equip loadout i.item_type i.serial) true
    else restore_characters filled inv loadout changed

abbrev player_or_zero : Option Player → Player
player_or_zero none = no_player
player_or_zero (some p) = p

module _ {S : Type 0} where
  abbrev unless_exists : {A : Type 0} → Result A × S → Exec S A → Result A × S
  unless_exists (err already_exists, s) handler = handler s
  unless_exists (r, s) handler = (r, s)

  -- `if errors.Is(err, ErrAlreadyExists) { return handler }`.
  abbrev on_exists : {A : Type 0} → Exec S A → Exec S A → Exec S A
  on_exists m handler s = unless_exists (m s) handler

  module _ (players : PlayerRepository S) (catalog : Catalog)
      (starting_point starting_cash : ℕ) where
    abbrev save_if : Bool → Exec S (Unit {0}) → Exec S (Unit {0})
    save_if true m = m
    save_if false m = pure tt

    -- An account that is there.
    unfoldable pub welcome_back : String → Time → Player → Exec S Player
    unfolding purge_expired slot_filled restore_characters
    welcome_back steam_id now found = do
      players.touch steam_id now
      let (gone, player) = purge_expired (record found { last_login = now }) now
      let purged = ltb 0 (length gone)
      save_if purged
          (players.commit_inventory steam_id player.inventory wallet_none 0 >>= λ _. pure tt)
      save_if purged (players.save_attachments steam_id player.attachments)
      let (loadout, changed) =
          restore_characters (slot_filled player) player.inventory player.loadout purged
      save_if changed (players.save_loadout steam_id loadout)
      pure (record player { loadout = loadout })

    -- A create that another log-in has overtaken answers the account that is there.
    unfoldable pub create_account : String → Time → Time → Exec S Player
    unfolding new_account
    create_account steam_id now later = do
      let player = record (new_account catalog starting_point starting_cash steam_id later) {
        created_at = now;
        last_login = now;
      }
      on_exists (players.create player >> pure player)
          (do found ← players.find steam_id; pure (player_or_zero found))

    abbrev login_as : String → Time → Time → Option Player → Exec S Player
    login_as steam_id now later none = create_account steam_id now later
    login_as steam_id now later (some found) = welcome_back steam_id now found

    unfoldable pub login_by_steam : String → Time → Time → Exec S Player
    unfolding welcome_back create_account
    login_by_steam steam_id now later = do
      found ← players.find steam_id
      login_as steam_id now later found
