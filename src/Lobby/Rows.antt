-- ===== src/Lobby/Rows.antt =====
-- items.go and profile.go: the rows of an account, its items and its records. `runes` is `[]rune(s)`, and
-- the parser of numbers and the FNV hash are parameters.
use fear_online_server.Prelude.{
  ℕ, ◌+◌, ◌-◌, ◌%◌, ◌^◌, String, not, ◌&&◌, ltb, ◌==◌, if◌then◌else◌, List, [], ◌∷◌, ◌++◌, length,
  Option, none, some, filter_by,
}
use fear_online_server.Prelude.NatMap.{value_at, put}
use fear_online_server.Prelude.Int.{pos}
use fear_online_server.Models.Item.{InventoryItem, Time, wire_value}
use fear_online_server.Models.Loadout.{Loadout}
use fear_online_server.Models.Attachments.{AttachedItem, Attachments, is_custom_slot}
use fear_online_server.Models.Records.{PvPRecord, PvERecord, HitRecord}
use fear_online_server.Models.Player.{Player}
use fear_online_server.Wire.Varint.{encode_var_int}
use fear_online_server.Wire.Bytes.{append_uint16, append_uint32, append_uint64}
use fear_online_server.Wire.Text.{write_proud_string}
use fear_online_server.Rooms.Create.{level_byte}

abbrev pub slot_active : ℕ
slot_active = 1

abbrev steam_account_base : ℕ
steam_account_base = 76561197960265728

-- `for _, value := range values { dst = appendUint32(dst, value) }`.
unfoldable pub append_words : List ℕ → List ℕ → List ℕ
unfolding append_uint32
append_words dst [] = dst
append_words dst (v ∷ vs) = append_words (append_uint32 dst v) vs

-- A key that the map does not have gives the zero value.
abbrev pub or_zero : Option ℕ → ℕ
or_zero none = 0
or_zero (some n) = n

unfoldable pub append_item : List ℕ → InventoryItem → (function_code : ℕ) → Time → List ℕ
unfolding append_uint16 append_uint32 wire_value
append_item dst item function_code now =
    append_uint32 (append_uint32 (append_uint16 dst item.serial) item.item_index)
      (wire_value item now)
    ++ (item.state ∷ item.instance_aux ∷ item.item_type ∷ function_code ∷ [])

unfoldable pub append_items : List ℕ → List InventoryItem → (ℕ → ℕ) → Time → List ℕ
unfolding append_item
append_items body [] function_of now = body
append_items body (item ∷ items) function_of now =
    append_items (append_item body item (function_of item.item_index) now) items function_of now

unfoldable pub item_list : List InventoryItem → (ℕ → ℕ) → Time → List ℕ
unfolding append_items encode_var_int
item_list items function_of now =
    append_items (encode_var_int (pos (length items))) items function_of now

unfoldable pub item_value_row : InventoryItem → Time → List ℕ
item_value_row item now =
    append_uint32 (append_uint16 [] item.serial) (wire_value item now) ++ (item.state ∷ [])

-- The map from serials to item indices; a later item replaces an earlier one.
unfoldable pub index_by_serial : List InventoryItem → List (ℕ × ℕ) → List (ℕ × ℕ)
index_by_serial [] m = m
index_by_serial (item ∷ items) m = index_by_serial items (put item.serial item.item_index m)

unfoldable pub slot_row : AttachedItem → (child_item_index active : ℕ) → List ℕ
slot_row mounted child_item_index active =
    append_uint32 (append_uint16 (append_uint16 [] mounted.parent_serial) mounted.child_serial)
      child_item_index
    ++ (mounted.slot ∷ active ∷ [])

unfoldable pub custom_equip_row : AttachedItem → (active : ℕ) → List ℕ
custom_equip_row mounted active =
    append_uint16 (append_uint16 [] mounted.child_serial) mounted.parent_serial
    ++ (mounted.slot ∷ active ∷ [])

unfoldable pub slot_rows : List (ℕ × ℕ) → List ℕ → Attachments → List ℕ
unfolding slot_row
slot_rows indices body [] = body
slot_rows indices body (m ∷ mounts) =
    slot_rows indices (body ++ slot_row m (or_zero (value_at m.child_serial indices)) slot_active)
      mounts

unfoldable pub slot_list : Player → List ℕ
unfolding slot_rows index_by_serial
slot_list p =
    let mounts = filter_by (λ m. not (is_custom_slot m.slot)) p.attachments in
    slot_rows (index_by_serial p.inventory []) (encode_var_int (pos (length mounts))) mounts

unfoldable pub custom_equip_rows : List ℕ → Attachments → List ℕ
unfolding custom_equip_row
custom_equip_rows body [] = body
custom_equip_rows body (m ∷ mounts) =
    custom_equip_rows (body ++ custom_equip_row m slot_active) mounts

unfoldable pub custom_equip_list : Player → List ℕ
unfolding custom_equip_rows
custom_equip_list p =
    let mounts = filter_by (λ m. is_custom_slot m.slot) p.attachments in
    custom_equip_rows (encode_var_int (pos (length mounts))) mounts

unfoldable pub equip_rows : List (ℕ × ℕ) → List ℕ → Loadout → List ℕ
equip_rows indices body [] = body
equip_rows indices body (e ∷ loadout) =
    equip_rows indices
      (append_uint32 (append_uint16 body e.serial) (or_zero (value_at e.serial indices))
        ++ (e.slot ∷ []))
      loadout

unfoldable pub equip_slot_list : Player → List ℕ
unfolding equip_rows index_by_serial
equip_slot_list p =
    equip_rows (index_by_serial p.inventory []) (encode_var_int (pos (length p.loadout))) p.loadout

unfoldable pub append_pvp : List ℕ → PvPRecord → List ℕ
unfolding append_words
append_pvp dst r =
    let decided = (r.win + r.lose) % 2 ^ 32 in
    let games = if r.games == 0 && ltb 0 decided then decided else r.games in
    append_words dst (games ∷ r.win ∷ r.lose ∷ r.kill ∷ r.death ∷ r.headshot ∷ [])

unfoldable pub append_pve : List ℕ → PvERecord → List ℕ
unfolding append_words
append_pve dst r = append_words dst (r.complete ∷ r.games ∷ r.npc_kill ∷ r.death ∷ [])

unfoldable pub append_hit : List ℕ → HitRecord → List ℕ
unfolding append_words
append_hit dst r = append_words dst (r.head ∷ r.arms ∷ r.body ∷ r.legs ∷ r.miss ∷ [])

pub record MapQuestRow : Type 0 where
  pub outcome0 : ℕ
  pub outcome1 : ℕ
  pub outcome2 : ℕ
  pub kill : ℕ
  pub headshot : ℕ
  pub death : ℕ

unfoldable pub append_map_quest_row : List ℕ → (map_index : ℕ) → MapQuestRow → List ℕ
unfolding append_words
append_map_quest_row dst map_index row = append_words (append_uint16 dst map_index) (
    row.outcome0 ∷ row.outcome1 ∷ row.outcome2 ∷ row.kill ∷ row.headshot ∷ 0 ∷ row.death ∷ 0 ∷ 0 ∷ 0
    ∷ 0 ∷ [])

-- A row for TDM_PentHouse and one for PVE_Act01Ms02_E.
unfoldable pub map_quest_list : Player → List ℕ
unfolding append_map_quest_row
map_quest_list p =
    let pvp = p.records.pvp in
    let pve = p.records.pve in
    let first : MapQuestRow = record {
      outcome0 = pvp.win;
      outcome1 = pvp.draw;
      outcome2 = pvp.lose;
      kill = pvp.kill;
      headshot = pvp.headshot;
      death = pvp.death;
    } in
    let second : MapQuestRow = record {
      outcome0 = pve.complete;
      outcome1 = if ltb pve.complete pve.games then pve.games - pve.complete else 0;
      outcome2 = 0;
      kill = pve.npc_kill;
      headshot = 0;
      death = pve.death;
    } in
    append_map_quest_row (append_map_quest_row (encode_var_int (pos 2)) 204 first) 704 second

-- strconv.ParseUint in base 10 with 64 bits, where it succeeds, and the FNV-1a hash of a string.
module _ (parse_uint : String → Option ℕ) (fnv : String → ℕ) (runes : String → List ℕ) where
  abbrev account_number : Option ℕ → String → ℕ
  account_number none steam_id = fnv steam_id
  account_number (some id) steam_id =
      if ltb steam_account_base id then id - steam_account_base else fnv steam_id

  unfoldable pub character_id : String → ℕ
  character_id steam_id = account_number (parse_uint steam_id) steam_id

  unfoldable pub notify_character : Player → List ℕ
  unfolding append_pvp append_pve append_hit character_id level_byte
  notify_character p =
      let named = append_uint64 (write_proud_string [] (runes p.name)) (character_id p.steam_id) in
      let levelled = append_uint32 (named ++ (level_byte p ∷ [])) (p.level % 2 ^ 32) in
      let fought = append_pvp (append_uint32 levelled (p.exp % 2 ^ 32)) p.records.pvp in
      append_uint32 (append_hit (append_pve fought p.records.pve) p.records.hit) 0

  unfoldable pub notify_record : Player → List ℕ
  unfolding append_pvp append_pve character_id level_byte
  notify_record p =
      let named = append_uint64 [] (character_id p.steam_id) ++ (level_byte p ∷ []) in
      append_uint32 (append_pve (append_pvp named p.records.pvp) p.records.pve) 0
