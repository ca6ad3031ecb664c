-- ===== src/Catalog.antt =====
-- server/internal/catalog/catalog.go: the static definitions of items, maps, rewards and recipes.
-- An `int` is an integer, a `uint32` or a `uint64` a natural number.
pub mod Rows
pub mod Load
pub mod Links
pub mod OpenMaps
mod Runs
use fear_online_server.Prelude.{
  ℕ, ◌+◌, ◌-◌, ◌*◌, ◌%◌, ◌^◌, String, Bool, true, false, not, ◌&&◌, ◌||◌, ltb, leb, ◌==◌, ◌=ₛ◌,
  if◌then◌else◌, List, [], ◌∷◌, map, filter_by, any_by, Option, none, some,
}
use fear_online_server.Prelude.Int.{ℤ, pos, negsuc, to_u32}
use fear_online_server.Prelude.NatMap.{value_at}

-- One character for each faction, and a basic weapon.
abbrev pub starter_items : List ℕ
starter_items = 11100101 ∷ 12100101 ∷ 21102201 ∷ []

pub record CustomPart : Type 0 where
  pub part_index : ℕ
  pub attack : ℤ
  pub accuracy : ℤ
  pub stability : ℤ
  pub shot_speed : ℤ
  pub able_to_mode : String

pub record FunctionItem : Type 0 where
  pub function_index : ℕ
  pub function_type : ℤ
  pub item_desc : String
  pub value : ℤ

pub record GameItem : Type 0 where
  pub item_index : ℕ
  pub record_name : String
  pub eng_name : String
  pub high_group : ℤ
  pub middle_group : ℤ
  pub function_index : ℤ
  pub point_price : ℕ
  pub cash_price : ℕ
  pub bonus_point : ℕ
  pub cash_type : ℤ
  pub is_resell : Bool
  pub resell_point : ℕ
  pub is_sell : Bool
  pub is_shop_show : Bool
  pub is_sale : Bool
  pub sale_price : ℕ
  pub repair_point : ℕ
  pub can_gift : Bool
  pub use_type : ℤ
  pub use_time : ℤ
  pub use_count : ℤ
  pub durability : ℤ
  pub is_merge : Bool
  pub only_pve : Bool
  pub buy_level_limit : ℤ
  pub equip_level_limit : ℤ
  pub weapon_type : ℤ
  pub slot_count : ℤ
  pub capsule_grade : ℤ
  pub attack : ℤ
  pub accuracy : ℤ
  pub stability : ℤ
  pub shot_speed : ℤ
  pub carry : ℤ
  pub magazine : ℤ
  pub supply : ℤ

-- Go's zero value, which a missing key of a map gives.
abbrev pub no_game_item : GameItem
no_game_item = record {
  item_index = 0;
  record_name = "";
  eng_name = "";
  high_group = pos 0;
  middle_group = pos 0;
  function_index = pos 0;
  point_price = 0;
  cash_price = 0;
  bonus_point = 0;
  cash_type = pos 0;
  is_resell = false;
  resell_point = 0;
  is_sell = false;
  is_shop_show = false;
  is_sale = false;
  sale_price = 0;
  repair_point = 0;
  can_gift = false;
  use_type = pos 0;
  use_time = pos 0;
  use_count = pos 0;
  durability = pos 0;
  is_merge = false;
  only_pve = false;
  buy_level_limit = pos 0;
  equip_level_limit = pos 0;
  weapon_type = pos 0;
  slot_count = pos 0;
  capsule_grade = pos 0;
  attack = pos 0;
  accuracy = pos 0;
  stability = pos 0;
  shot_speed = pos 0;
  carry = pos 0;
  magazine = pos 0;
  supply = pos 0;
}

pub record MapInfo : Type 0 where
  pub map_index : ℕ
  pub map_mode : ℤ
  pub play_normal : Bool
  pub play_pve : Bool
  pub user : List ℤ
  pub user_min : ℤ
  pub user_default : ℤ
  pub map_name : String
  pub mode_name : String
  pub difficulty : ℤ
  pub win_reward_item : ℕ
  pub lose_reward_index : ℕ
  pub draw_reward_index : ℕ

pub record RewardItem : Type 0 where
  pub reward_index : ℕ
  pub min : ℤ
  pub max : ℤ
  pub random_max : ℤ
  pub reward_item : ℕ
  pub reward_exp : ℕ
  pub reward_point : ℕ
  pub reward_type : ℤ

-- RewardItemIndex is `[3]uint32`.
pub record ClassInfo : Type 0 where
  pub class_index : ℕ
  pub class_level : ℤ
  pub type : ℤ
  pub career : ℤ
  pub class_name : String
  pub exp_min : ℕ
  pub exp_max : ℕ
  pub point_value : ℕ
  pub reward_item_index : ℕ × ℕ × ℕ

pub record RecipeMaterial : Type 0 where
  pub item_index : ℕ
  pub count : ℤ

pub record Recipe : Type 0 where
  pub id : ℕ
  pub exist : Bool
  pub represent_index : ℕ
  pub require_level : ℤ
  pub price_type : ℤ
  pub price_point : ℕ
  pub price_cash : ℕ
  pub materials : List RecipeMaterial
  pub item_output : ℕ
  pub count_output : ℤ

pub record Catalog : Type 0 where
  pub items : List (ℕ × GameItem)
  pub maps : List (ℕ × MapInfo)
  pub rewards : List (ℕ × List RewardItem)
  pub classes : List ClassInfo
  pub recipes : List (ℕ × Recipe)
  pub functions : List (ℕ × FunctionItem)
  pub parts_for : List (ℕ × List (ℕ × Bool))
  pub parts : List (ℕ × CustomPart)

-- The value of a set at a key: false where it is missing.
abbrev pub is_set : Option Bool → Bool
is_set none = false
is_set (some b) = b

-- The parts of a weapon; a missing key gives the nil map, which holds nothing.
abbrev pub parts_at : Option (List (ℕ × Bool)) → List (ℕ × Bool)
parts_at none = []
parts_at (some parts) = parts

unfoldable pub accepts : Catalog → (weapon part : ℕ) → Bool
accepts c weapon part = is_set (value_at part (parts_at (value_at weapon c.parts_for)))

-- `byte(t)` for a type in 0..0xFF, and 0 for any other.
abbrev function_byte : Option FunctionItem → ℕ
function_byte none = 0
function_byte (some f) = elim f.function_type [ pos n ↦ if ltb 0xFF n then 0 else n | negsuc n ↦ 0 ]

abbrev is_zero : ℤ → Bool
is_zero (pos n) = n == 0
is_zero (negsuc n) = false

abbrev function_of : Catalog → Option GameItem → ℕ
function_of c none = 0
function_of c (some item) =
    if is_zero item.function_index
    then 0
    else function_byte (value_at (to_u32 item.function_index) c.functions)

unfoldable pub item_function_type : Catalog → ℕ → ℕ
item_function_type c item_index = function_of c (value_at item_index c.items)

-- `uint8(v)` of an int.
abbrev pub to_u8 : ℤ → ℕ
to_u8 (pos n) = n % 2 ^ 8
to_u8 (negsuc n) = 2 ^ 8 - 1 - n % 2 ^ 8

-- Sums and products of ints keep their value mod 2^8, so they are taken there; 2^8 - 1 is -1.
unfoldable pub item_type : GameItem → ℕ
item_type g =
    (0x0B + (to_u8 g.high_group + (2 ^ 8 - 1)) * 0x0A + (to_u8 g.middle_group + (2 ^ 8 - 1)))
    % 2 ^ 8

abbrev installed_open_maps : List String
installed_open_maps =
    "TAM_Rooftop" ∷ "TAM_Rooftop_Light" ∷ "TAM_Killhouse" ∷ "TAM_Mansion" ∷ "TAM_Arsenal"
    ∷ "TAM_RuinCity" ∷ "TAM_Gore_Mansion" ∷ "SSM_Downfall" ∷ "TDM_PentHouse" ∷ "TDM__Laboratory"
    ∷ "TDM_Airport" ∷ "TCP_EPA_TH_01" ∷ "PVE_Act01Ms02_E" ∷ "PVE_Act01Ms02_N" ∷ "PVE_Act01Ms02_H"
    ∷ "PVE_Runaway_E" ∷ "PVE_Runaway_N" ∷ "PVE_Runaway_H" ∷ "PVE_Runaway02_E" ∷ "PVE_Runaway02_N"
    ∷ "PVE_Runaway02_H" ∷ "Rag_Town" ∷ "Rag_Retake" ∷ []

unfoldable pub is_installed : String → Bool
is_installed name = any_by (λ open_map. open_map =ₛ name) installed_open_maps

-- sort.Slice by MapIndex, which the maps' keys make an order without ties.
unfoldable pub insert_map : MapInfo → List MapInfo → List MapInfo
insert_map m [] = m ∷ []
insert_map m (x ∷ xs) = if leb m.map_index x.map_index then m ∷ x ∷ xs else x ∷ insert_map m xs

unfoldable pub sort_maps : List MapInfo → List MapInfo
unfolding insert_map
sort_maps [] = []
sort_maps (m ∷ ms) = insert_map m (sort_maps ms)

unfoldable pub open_maps : Catalog → List MapInfo
unfolding sort_maps is_installed
open_maps c = sort_maps (filter_by (λ m. is_installed m.map_name) (map (λ e. e.1) c.maps))
