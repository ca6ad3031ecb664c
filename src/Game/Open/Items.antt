-- ===== src/Game/Open/Items.antt =====
-- The handlers of items.go keep the open rooms.
use fear_online_server.Game.Ids.{rmi_answer_equip_perk_fail, rmi_answer_equip_perk_item}
use fear_online_server.Prelude.{ℕ, List, Option, none, some}
use fear_online_server.Game.{World, Env, Act, send}
use fear_online_server.Game.Open.Seats.{IsOpen}
use fear_online_server.Game.Open.Keeps.{Keeps, keeps, if-Keeps, send-Keeps}
use fear_online_server.Game.Open.Sending.{send_all-Keeps}
use fear_online_server.Prelude.{length, ◌==◌}
use fear_online_server.Models.Item.{InventoryItem}
use fear_online_server.Models.Player.{Player, Wallet, wallet_point, wallet_cash, wallet_none}
use fear_online_server.Services.Players.Shop.{BuyResult, CraftResult}
use fear_online_server.Wire.Bytes.{read_uint16}
use fear_online_server.Game.Start.{no_reason}
use fear_online_server.Game.Items.{
  send_attachment, attached, attach_part, detach_part, gear_equip, gear_break, equip_custom,
  break_custom, equipped_serial, equip_serial, equip_request, on_failure, perk_equip, perk_break,
  perk_increase_slot, send_balance, send_new_item, send_item_value, complete_deltas,
  complete_purchase, buy_request, complete_part, buy_custom_request, complete_craft, craft_request,
}

module _ {S : Type 0} (env : Env S) where
  pub send_attachment-Keeps :
      (x parent : ℕ) (child : InventoryItem) (active : ℕ)
      → Keeps (send_attachment env x parent child active)
  unfolding send_attachment
  send_attachment-Keeps x parent child active = search (keeps) depth 9

  attached-Keeps :
      (x : ℕ) (body : List ℕ) (ok_id active : ℕ) (r : Player × InventoryItem)
      → Keeps (attached env x body ok_id active r)
  unfolding attached
  attached-Keeps x body ok_id active (updated, child) =
      search (keeps, send_attachment-Keeps) depth 9

  attach_part-Keeps :
      (x : ℕ) (body : List ℕ) (ok_id fail_id : ℕ) → Keeps (attach_part env x body ok_id fail_id)
  unfolding attach_part
  attach_part-Keeps x body ok_id fail_id = search (keeps, attached-Keeps) depth 9

  detach_part-Keeps :
      (x : ℕ) (body : List ℕ) (ok_id fail_id : ℕ) → Keeps (detach_part env x body ok_id fail_id)
  unfolding detach_part
  detach_part-Keeps x body ok_id fail_id = search (keeps, attached-Keeps) depth 9

  pub gear_equip-Keeps : (x : ℕ) (body : List ℕ) → Keeps (gear_equip env x body)
  unfolding gear_equip
  gear_equip-Keeps x body = search (keeps, attach_part-Keeps) depth 9

  pub gear_break-Keeps : (x : ℕ) (body : List ℕ) → Keeps (gear_break env x body)
  unfolding gear_break
  gear_break-Keeps x body = search (keeps, detach_part-Keeps) depth 9

  pub equip_custom-Keeps : (x : ℕ) (body : List ℕ) → Keeps (equip_custom env x body)
  unfolding equip_custom
  equip_custom-Keeps x body = search (keeps, attach_part-Keeps) depth 9

  pub break_custom-Keeps : (x : ℕ) (body : List ℕ) → Keeps (break_custom env x body)
  unfolding break_custom
  break_custom-Keeps x body = search (keeps, detach_part-Keeps) depth 9

  equipped_serial-Keeps :
      (x serial answer_id : ℕ) (updated : Player)
      → Keeps (equipped_serial env x serial answer_id updated)
  unfolding equipped_serial
  equipped_serial-Keeps x serial answer_id updated = search (keeps) depth 9

  equip_serial-Keeps : (x serial answer_id : ℕ) → Keeps (equip_serial env x serial answer_id)
  unfolding equip_serial
  equip_serial-Keeps x serial answer_id = search (keeps, equipped_serial-Keeps) depth 9

  pub equip_request-Keeps : (x : ℕ) (body : List ℕ) → Keeps (equip_request env x body)
  unfolding equip_request
  equip_request-Keeps x body = search (keeps, equip_serial-Keeps) depth 9

  on_failure-IsOpen :
      (m : Act S (Unit {0})) (r : Option (Unit {0}) × World S)
      → Keeps m
      → IsOpen r.1.places
      → IsOpen (on_failure env m r).1.places
  on_failure-IsOpen m (none, w) h o = h.kept w o
  on_failure-IsOpen m (some u, w) h o = o

  failing-Keeps : (m n : Act S (Unit {0})) → Keeps m → Keeps n → Keeps (λ w. on_failure env n (m w))
  failing-Keeps m n h k = record { kept = λ w o. on_failure-IsOpen n (m w) k (h.kept w o) }

  pub perk_equip-Keeps : (x : ℕ) (body : List ℕ) → Keeps (perk_equip env x body)
  unfolding perk_equip
  perk_equip-Keeps x body =
      if-Keeps (length body == 2)
        (failing-Keeps (equip_serial env x (read_uint16 body) rmi_answer_equip_perk_item)
          (send x rmi_answer_equip_perk_fail no_reason)
          (equip_serial-Keeps x (read_uint16 body) rmi_answer_equip_perk_item)
          (send-Keeps x rmi_answer_equip_perk_fail no_reason))
        (attach_part-Keeps x body rmi_answer_equip_perk_item rmi_answer_equip_perk_fail)

  pub perk_break-Keeps : (x : ℕ) (body : List ℕ) → Keeps (perk_break env x body)
  unfolding perk_break
  perk_break-Keeps x body = search (keeps, detach_part-Keeps) depth 9

  pub perk_increase_slot-Keeps : (x : ℕ) (body : List ℕ) → Keeps (perk_increase_slot env x body)
  unfolding perk_increase_slot
  perk_increase_slot-Keeps x body = search (keeps) depth 9

  send_balance-Keeps : (x : ℕ) (wallet : Wallet) (p : Player) → Keeps (send_balance env x wallet p)
  send_balance-Keeps x wallet_point p = search keeps
  send_balance-Keeps x wallet_cash p = search keeps
  send_balance-Keeps x wallet_none p = search keeps

  send_new_item-Keeps : (x : ℕ) (i : InventoryItem) → Keeps (send_new_item env x i)
  unfolding send_new_item
  send_new_item-Keeps x i = search (keeps) depth 9

  pub send_item_value-Keeps : (x : ℕ) (i : InventoryItem) → Keeps (send_item_value env x i)
  unfolding send_item_value
  send_item_value-Keeps x i = search (keeps) depth 9

  complete_deltas-Keeps : (x : ℕ) (r : BuyResult) → Keeps (complete_deltas env x r)
  unfolding complete_deltas
  complete_deltas-Keeps x r =
      search (keeps, send_balance-Keeps, send_new_item-Keeps, send_item_value-Keeps) depth 9

  complete_purchase-Keeps :
      (x answer_id : ℕ) (r : BuyResult) → Keeps (complete_purchase env x answer_id r)
  unfolding complete_purchase
  complete_purchase-Keeps x answer_id r = search (keeps, complete_deltas-Keeps) depth 9

  pub buy_request-Keeps : (x : ℕ) (body : List ℕ) → Keeps (buy_request env x body)
  unfolding buy_request
  buy_request-Keeps x body = search (keeps, complete_purchase-Keeps) depth 9

  complete_part-Keeps : (x : ℕ) (body : List ℕ) (r : BuyResult) → Keeps (complete_part env x body r)
  unfolding complete_part
  complete_part-Keeps x body r =
      search (keeps, complete_deltas-Keeps, send_attachment-Keeps) depth 9

  pub buy_custom_request-Keeps : (x : ℕ) (body : List ℕ) → Keeps (buy_custom_request env x body)
  unfolding buy_custom_request
  buy_custom_request-Keeps x body = search (keeps, complete_part-Keeps) depth 9

  complete_craft-Keeps :
      (x : ℕ) (body : List ℕ) (r : CraftResult) → Keeps (complete_craft env x body r)
  unfolding complete_craft
  complete_craft-Keeps x body r =
      search (keeps, send_all-Keeps, send_item_value-Keeps, send_new_item-Keeps) depth 9

  pub craft_request-Keeps : (x : ℕ) (body : List ℕ) → Keeps (craft_request env x body)
  unfolding craft_request
  craft_request-Keeps x body = search (keeps, complete_craft-Keeps) depth 9
