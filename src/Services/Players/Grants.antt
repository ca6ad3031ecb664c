-- ===== src/Services/Players/Grants.antt =====
-- player_service.go: the price of an item, when it expires, and how it enters an inventory.
use fear_online_server.Prelude.{
  ℕ, ◌+◌, ◌-◌, ◌*◌, ◌%◌, ◌^◌, Bool, true, false, not, ◌&&◌, ltb, ◌==◌, if◌then◌else◌, List, [], ◌∷◌,
  ◌++◌, Option, none, some,
}
use fear_online_server.Prelude.Int.{ℤ, pos, negsuc}
use fear_online_server.Models.Item.{Time, InventoryItem, second}
use fear_online_server.Models.Player.{
  Player, Wallet, wallet_none, wallet_point, wallet_cash, next_serial,
}
use fear_online_server.Catalog.{GameItem, item_type}

-- `def.UseTime` where it is above 0, and 0 otherwise.
abbrev pub rental_seconds : ℤ → ℕ
rental_seconds (pos n) = n
rental_seconds (negsuc n) = 0

-- `t.Add(time.Duration(n) * time.Second)`: the duration is an int64 of nanoseconds, which wraps.
unfoldable pub add_seconds : Time → ℕ → Time
add_seconds t n = let d = n * second % 2 ^ 64 in if ltb d (2 ^ 63) then t + d else t - (2 ^ 64 - d)

unfoldable pub expiry_for : GameItem → Time → Time
unfolding add_seconds
expiry_for def now =
    if rental_seconds def.use_time == 0 then 0 else add_seconds now (rental_seconds def.use_time)

abbrev is_one : ℤ → Bool
is_one (pos n) = n == 1
is_one (negsuc n) = false

unfoldable pub store_price : GameItem → Wallet × ℕ
store_price def =
    let point_price =
      if def.is_sale && ltb 0 def.sale_price then def.sale_price else def.point_price in
    if is_one def.cash_type && ltb 0 def.cash_price
    then (wallet_cash, def.cash_price)
    else if not (is_one def.cash_type) && ltb 0 point_price
    then (wallet_point, point_price)
    else if ltb 0 def.cash_price
    then (wallet_cash, def.cash_price)
    else (wallet_none, 0)

abbrev keep_changed :
    InventoryItem
    → Option (InventoryItem × List InventoryItem)
    → Option (InventoryItem × List InventoryItem)
keep_changed i none = none
keep_changed i (some (j, inv)) = some (j, i ∷ inv)

-- The loops that change the first item of an index and return it.
unfoldable pub change_first :
    ℕ
    → (InventoryItem → InventoryItem)
    → List InventoryItem
    → Option (InventoryItem × List InventoryItem)
change_first index f [] = none
change_first index f (i ∷ inv) =
    if i.item_index == index
    then some (f i, f i ∷ inv)
    else keep_changed i (change_first index f inv)

-- A rental goes on from its end, or from now where it has ended.
unfoldable pub extended : GameItem → Time → InventoryItem → InventoryItem
unfolding add_seconds
extended def now i = record i {
  expires_at =
      add_seconds (if ltb i.expires_at now then now else i.expires_at)
        (rental_seconds def.use_time);
}

unfoldable pub one_more : InventoryItem → InventoryItem
one_more i = record i { value = (i.value + 1) % 2 ^ 32 }

unfoldable pub new_item : ℕ → GameItem → ℕ → Time → InventoryItem
unfolding expiry_for item_type
new_item serial def item_index now = record {
  serial = serial;
  item_index = item_index;
  value = 1;
  state = 1;
  item_type = item_type def;
  instance_aux = 0;
  expires_at = expiry_for def now;
}

-- The item, whether it is new, and the player. A new item without a serial is not added.
abbrev pub appended : Player → InventoryItem → InventoryItem × Bool × Player
appended p i =
    (i, true, if i.serial == 0 then p else record p { inventory = p.inventory ++ (i ∷ []) })

abbrev pub changed_or_new :
    Player
    → InventoryItem
    → Option (InventoryItem × List InventoryItem)
    → InventoryItem × Bool × Player
changed_or_new p i none = appended p i
changed_or_new p i (some (j, inv)) = (j, false, record p { inventory = inv })

unfoldable pub add_to_inventory : Player → GameItem → ℕ → Time → InventoryItem × Bool × Player
unfolding change_first extended one_more new_item next_serial
add_to_inventory p def item_index now =
    let i = new_item (next_serial p) def item_index now in
    if ltb 0 (rental_seconds def.use_time)
    then changed_or_new p i (change_first item_index (extended def now) p.inventory)
    else if def.is_merge
    then changed_or_new p i (change_first item_index one_more p.inventory)
    else appended p i
