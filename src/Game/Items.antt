-- ===== src/Game/Items.antt =====
-- The handlers of items.go: the store, crafting, and what is equipped and mounted. Where a service reads the
-- clock, it is read before the call.
use fear_online_server.Game.Ids.{
  rmi_answer_break_custom_fail, rmi_answer_break_custom_item, rmi_answer_break_gear_fail,
  rmi_answer_break_gear_item, rmi_answer_break_perk_fail, rmi_answer_break_perk_item,
  rmi_answer_buy_custom_item, rmi_answer_buy_custom_item_fail, rmi_answer_buy_item,
  rmi_answer_buy_item_fail, rmi_answer_equip_custom_fail, rmi_answer_equip_custom_item,
  rmi_answer_equip_gear_fail, rmi_answer_equip_gear_item, rmi_answer_equip_item,
  rmi_answer_equip_perk_fail, rmi_answer_equip_perk_item, rmi_answer_inc_perk_slot,
  rmi_answer_recipe_item, rmi_answer_recipe_item_fail, rmi_send_cash, rmi_send_delete_item,
  rmi_send_equip, rmi_send_equip_slot, rmi_send_item, rmi_send_item_value, rmi_send_point,
  rmi_send_slot,
}
use fear_online_server.Prelude.{
  ℕ, Bool, ltb, ◌==◌, if◌then◌else◌, List, [], ◌∷◌, ◌++◌, length, take, drop, map, Option, none,
  some,
}
use fear_online_server.Models.Item.{InventoryItem, no_item}
use fear_online_server.Models.Attachments.{AttachedItem, is_custom_slot}
use fear_online_server.Models.Player.{Player, item, Wallet, wallet_point, wallet_cash, wallet_none}
use fear_online_server.Catalog.{item_function_type}
use fear_online_server.Services.Players.{equip_item, detach_item}
use fear_online_server.Services.Players.Shop.{
  BuyResult, CraftResult, attach_item, buy, buy_custom_part, craft,
}
use fear_online_server.Wire.Bytes.{
  append_uint16, append_uint32, uint64_le, read_uint16, read_uint32,
}
use fear_online_server.Lobby.Rows.{
  append_item, item_value_row, slot_row, custom_equip_row, slot_active,
}
use fear_online_server.Game.Broadcast.{send_all}
use fear_online_server.Game.Start.{no_reason}
use fear_online_server.Game.{
  World, Env, Act, pure, fail, ◌>>=◌, ◌>>◌, given, each_of, send, serve, account_of, keep_player,
  unless_error, read_clock,
}

abbrev slot_inactive : ℕ
slot_inactive = 0

abbrev item_or_none : Option InventoryItem → InventoryItem
item_or_none none = no_item
item_or_none (some i) = i

-- `if test { return send refusal }`.
abbrev pub refuse_if : {S : Type 0} → Bool → Act S (Unit {0}) → Act S (Unit {0}) → Act S (Unit {0})
refuse_if test refusal rest = if test then refusal else rest

module _ {S : Type 0} (env : Env S) where
  unfoldable pub send_attachment :
      ℕ → (parent : ℕ) → InventoryItem → (active : ℕ) → Act S (Unit {0})
  unfolding is_custom_slot custom_equip_row slot_row
  send_attachment x parent child active =
      let mounted : AttachedItem = record {
        parent_serial = parent;
        child_serial = child.serial;
        slot = child.item_type;
      } in
      if is_custom_slot child.item_type
      then send x rmi_send_equip (custom_equip_row mounted active)
      else send x rmi_send_slot (slot_row mounted child.item_index active)

  unfoldable pub attached :
      ℕ → List ℕ → (ok_id active : ℕ) → Player × InventoryItem → Act S (Unit {0})
  unfolding send_attachment
  attached x body ok_id active (updated, child) = do
    keep_player x updated
    send_attachment x (read_uint16 body) child active
    send x ok_id (take 4 body)

  unfoldable pub attach_part : ℕ → List ℕ → (ok_id fail_id : ℕ) → Act S (Unit {0})
  unfolding attach_item attached
  attach_part x body ok_id fail_id = do
    account ← account_of x
    player ← given account
    refuse_if (ltb (length body) 4) (send x fail_id no_reason) (do
      now ← read_clock env
      r ← serve (
          attach_item env.players env.catalog player.steam_id (read_uint16 body)
            (read_uint16 (drop 2 body)) now)
      unless_error r (send x fail_id no_reason) (attached x body ok_id slot_active))

  unfoldable pub detach_part : ℕ → List ℕ → (ok_id fail_id : ℕ) → Act S (Unit {0})
  unfolding detach_item attached
  detach_part x body ok_id fail_id = do
    account ← account_of x
    player ← given account
    refuse_if (ltb (length body) 4) (send x fail_id no_reason) (do
      r ←
          serve
            (detach_item env.players player.steam_id (read_uint16 body) (read_uint16 (drop 2 body)))
      unless_error r (send x fail_id no_reason) (attached x body ok_id slot_inactive))

  unfoldable pub gear_equip : ℕ → List ℕ → Act S (Unit {0})
  unfolding attach_part
  gear_equip x body = attach_part x body rmi_answer_equip_gear_item rmi_answer_equip_gear_fail

  unfoldable pub gear_break : ℕ → List ℕ → Act S (Unit {0})
  unfolding detach_part
  gear_break x body = detach_part x body rmi_answer_break_gear_item rmi_answer_break_gear_fail

  unfoldable pub equip_custom : ℕ → List ℕ → Act S (Unit {0})
  unfolding attach_part
  equip_custom x body = attach_part x body rmi_answer_equip_custom_item rmi_answer_equip_custom_fail

  unfoldable pub break_custom : ℕ → List ℕ → Act S (Unit {0})
  unfolding detach_part
  break_custom x body = detach_part x body rmi_answer_break_custom_item rmi_answer_break_custom_fail

  unfoldable pub equipped_serial : ℕ → (serial answer_id : ℕ) → Player → Act S (Unit {0})
  unfolding item
  equipped_serial x serial answer_id updated = do
    let found = item_or_none (item updated serial)
    keep_player x updated
    send x rmi_send_equip_slot
        (append_uint32 (append_uint16 [] found.serial) found.item_index ++ (found.item_type ∷ []))
    send x answer_id (append_uint16 [] serial)

  unfoldable pub equip_serial : ℕ → (serial answer_id : ℕ) → Act S (Unit {0})
  unfolding equip_item equipped_serial
  equip_serial x serial answer_id = do
    account ← account_of x
    player ← given account
    now ← read_clock env
    r ← serve (equip_item env.players player.steam_id serial now)
    unless_error r fail (equipped_serial x serial answer_id)

  unfoldable pub equip_request : ℕ → List ℕ → Act S (Unit {0})
  unfolding equip_serial
  equip_request x body =
      if ltb (length body) 2
      then fail
      else if read_uint16 body == 0
      then send x rmi_answer_equip_item (append_uint16 [] 0)
      else equip_serial x (read_uint16 body) rmi_answer_equip_item

  abbrev pub on_failure :
      Act S (Unit {0}) → Option (Unit {0}) × World S → Option (Unit {0}) × World S
  on_failure handler (none, w) = handler w
  on_failure handler (some u, w) = (some u, w)

  -- A perk that is equipped by its own serial; a failed answer counts as a rejection too.
  unfoldable pub perk_equip : ℕ → List ℕ → Act S (Unit {0})
  unfolding equip_serial attach_part
  perk_equip x body =
      if length body == 2
      then (λ w.
          on_failure (send x rmi_answer_equip_perk_fail no_reason)
            (equip_serial x (read_uint16 body) rmi_answer_equip_perk_item w))
      else attach_part x body rmi_answer_equip_perk_item rmi_answer_equip_perk_fail

  unfoldable pub perk_break : ℕ → List ℕ → Act S (Unit {0})
  unfolding detach_part
  perk_break x body = detach_part x body rmi_answer_break_perk_item rmi_answer_break_perk_fail

  unfoldable pub perk_increase_slot : ℕ → List ℕ → Act S (Unit {0})
  perk_increase_slot x body = send x rmi_answer_inc_perk_slot body

  -- The new balance, of the wallet that has paid.
  abbrev pub send_balance : ℕ → Wallet → Player → Act S (Unit {0})
  send_balance x wallet_point p = send x rmi_send_point (uint64_le p.point)
  send_balance x wallet_cash p = send x rmi_send_cash (uint64_le p.cash)
  send_balance x wallet_none p = pure tt

  unfoldable pub send_new_item : ℕ → InventoryItem → Act S (Unit {0})
  unfolding append_item item_function_type
  send_new_item x i = do
    now ← read_clock env
    send x rmi_send_item (append_item [] i (item_function_type env.catalog i.item_index) now)

  unfoldable pub send_item_value : ℕ → InventoryItem → Act S (Unit {0})
  unfolding item_value_row
  send_item_value x i = do now ← read_clock env; send x rmi_send_item_value (item_value_row i now)

  unfoldable pub complete_deltas : ℕ → BuyResult → Act S (Unit {0})
  unfolding send_new_item send_item_value
  complete_deltas x r = do
    send_balance x r.wallet r.player
    if r.is_new then send_new_item x r.item else send_item_value x r.item

  unfoldable pub complete_purchase : ℕ → (answer_id : ℕ) → BuyResult → Act S (Unit {0})
  unfolding complete_deltas
  complete_purchase x answer_id r = do
    keep_player x r.player
    complete_deltas x r
    send x answer_id (append_uint16 [] r.item.serial)

  unfoldable pub buy_request : ℕ → List ℕ → Act S (Unit {0})
  unfolding buy complete_purchase
  buy_request x body = do
    account ← account_of x
    player ← given account
    refuse_if (ltb (length body) 4) (send x rmi_answer_buy_item_fail no_reason) (do
      now ← read_clock env
      r ← serve (buy env.players env.catalog player.steam_id (read_uint32 body) now)
      unless_error r (send x rmi_answer_buy_item_fail no_reason)
          (complete_purchase x rmi_answer_buy_item))

  unfoldable pub complete_part : ℕ → List ℕ → BuyResult → Act S (Unit {0})
  unfolding complete_deltas send_attachment
  complete_part x body r = do
    keep_player x r.player
    complete_deltas x r
    send_attachment x (read_uint16 body) r.item slot_active
    send x rmi_answer_buy_custom_item
        (append_uint32 (append_uint16 [] r.item.serial) (read_uint32 (drop 2 body)))

  unfoldable pub buy_custom_request : ℕ → List ℕ → Act S (Unit {0})
  unfolding buy_custom_part complete_part
  buy_custom_request x body = do
    account ← account_of x
    player ← given account
    refuse_if (ltb (length body) 6) (send x rmi_answer_buy_custom_item_fail no_reason) (do
      now ← read_clock env
      later ← read_clock env
      r ← serve (
          buy_custom_part env.players env.catalog player.steam_id (read_uint16 body)
            (read_uint32 (drop 2 body)) now later)
      unless_error r (send x rmi_answer_buy_custom_item_fail no_reason) (complete_part x body))

  unfoldable pub fail_craft : ℕ → Act S (Unit {0})
  fail_craft x = send x rmi_answer_recipe_item_fail no_reason

  unfoldable pub complete_craft : ℕ → List ℕ → CraftResult → Act S (Unit {0})
  unfolding send_item_value send_new_item
  complete_craft x body r = do
    keep_player x r.player
    send_all x (map (λ serial. (rmi_send_delete_item, append_uint16 [] serial)) r.deleted)
    each_of (send_item_value x) r.updated
    if ltb 0 r.price_point then send x rmi_send_point (uint64_le r.player.point) else pure tt
    send_new_item x r.output
    send x rmi_answer_recipe_item
        (append_uint32 (append_uint32 [] (read_uint32 body)) r.output.item_index)

  unfoldable pub craft_request : ℕ → List ℕ → Act S (Unit {0})
  unfolding craft fail_craft complete_craft
  craft_request x body = do
    account ← account_of x
    player ← given account
    refuse_if (ltb (length body) 4) (fail_craft x) (do
      now ← read_clock env
      r ← serve (craft env.players env.catalog player.steam_id (read_uint32 body) now)
      unless_error r (fail_craft x) (complete_craft x body))
