-- ===== src/Catalog/Rows.antt =====
-- catalog.go: a row of a CSV file, addressed by the name of a column, and what each table makes of it.
-- What the rows take from Go's strings and strconv is a parameter.
use fear_online_server.Prelude.{
  ℕ, ◌^◌, ◌%◌, String, Bool, ◌==◌, ◌=ₛ◌, if◌then◌else◌, List, [], ◌∷◌, length, ltb, get_or, Option,
  none, some,
}
use fear_online_server.Prelude.Int.{ℤ, to_u32}
use fear_online_server.Repositories.Table.{lookup}
use fear_online_server.Catalog.{
  CustomPart, FunctionItem, GameItem, MapInfo, RewardItem, ClassInfo, Recipe, RecipeMaterial,
}

-- strings.TrimSpace and strings.Split; strconv.Atoi, with the value and whether there is no error; and
-- the value of strconv.ParseUint in base 10, for a number of bits.
pub record Conversions : Type 0 where
  pub trim_space : String → String
  pub split : String → String → List String
  pub atoi : String → ℤ × Bool
  pub parse_uint : String → ℕ → ℕ

pub record Row : Type 0 where
  pub index : List (String × ℕ)
  pub fields : List String

abbrev field_at : Row → Option ℕ → String
field_at r none = ""
field_at r (some i) = get_or r.fields i ""

module _ (conv : Conversions) where
  -- Whether `ok && i < len(r.fields)`.
  abbrev in_row : Row → Option ℕ → Bool
  in_row r none = Bool.false
  in_row r (some i) = ltb i (length r.fields)

  unfoldable pub str : Row → String → String
  str r column =
      if in_row r (lookup column r.index)
      then conv.trim_space (field_at r (lookup column r.index))
      else ""

  unfoldable pub int : Row → String → ℤ
  unfolding str
  int r column = (conv.atoi (str r column)).0

  unfoldable pub u32 : Row → String → ℕ
  unfolding str
  u32 r column = conv.parse_uint (str r column) 32 % 2 ^ 32

  unfoldable pub u64 : Row → String → ℕ
  unfolding str
  u64 r column = conv.parse_uint (str r column) 64

  unfoldable pub bool : Row → String → Bool
  unfolding str
  bool r column = str r column =ₛ "1"

  unfoldable pub ints : List String → List ℤ
  ints [] = []
  ints (part ∷ parts) =
      let n = conv.atoi (conv.trim_space part) in
      let rest = ints parts in if n.1 then n.0 ∷ rest else rest

  unfoldable pub pipe_ints : Row → String → List ℤ
  unfolding str ints
  pipe_ints r column = if str r column =ₛ "" then [] else ints (conv.split (str r column) "|")

  unfoldable pub game_item_from_row : Row → GameItem
  unfolding str int u32 u64 bool
  game_item_from_row r = record {
    item_index = u32 r "ItemIndex";
    record_name = str r "RecordName";
    eng_name = str r "EngName";
    high_group = int r "HighGroup";
    middle_group = int r "MiddleGroup";
    function_index = int r "FunctionIndex";
    point_price = u64 r "PointPrice";
    cash_price = u64 r "CashPrice";
    bonus_point = u64 r "BonusPoint";
    cash_type = int r "CashType";
    is_resell = bool r "IsResell";
    resell_point = u64 r "ResellPoint";
    is_sell = bool r "IsSell";
    is_shop_show = bool r "IsShopShow";
    is_sale = bool r "IsSale";
    sale_price = u64 r "SalePrice";
    repair_point = u64 r "RepairPoint";
    can_gift = bool r "Cangift";
    use_type = int r "UseType";
    use_time = int r "UseTime";
    use_count = int r "UseCount";
    durability = int r "Durability";
    is_merge = bool r "IsMerge";
    only_pve = bool r "OnlyPvE";
    buy_level_limit = int r "BuyLevelLimit";
    equip_level_limit = int r "EquipLevelLimit";
    weapon_type = int r "WeaponType";
    slot_count = int r "SlotCount";
    capsule_grade = int r "CapsuleGrade";
    attack = int r "Attack";
    accuracy = int r "Accuracy";
    stability = int r "Stability";
    shot_speed = int r "ShotSpeed";
    carry = int r "Carry";
    magazine = int r "Magazine";
    supply = int r "Supply";
  }

  unfoldable pub map_info_from_row : Row → MapInfo
  unfolding str int u32 bool pipe_ints
  map_info_from_row r = record {
    map_index = u32 r "MapIndex";
    map_mode = int r "MapMode";
    play_normal = bool r "PlayNormal";
    play_pve = bool r "PlayPve";
    user = pipe_ints r "User";
    user_min = int r "UserMin";
    user_default = int r "UserDefault";
    map_name = str r "MapName";
    mode_name = str r "ModeName";
    difficulty = int r "Difficulty";
    win_reward_item = u32 r "WinRewardItem";
    lose_reward_index = u32 r "LoseRewardIndex";
    draw_reward_index = u32 r "DrawRewardIndex";
  }

  unfoldable pub reward_item_from_row : Row → RewardItem
  unfolding int u32 u64
  reward_item_from_row r = record {
    reward_index = u32 r "RewardIndex";
    min = int r "Min";
    max = int r "Max";
    random_max = int r "RandomMax";
    reward_item = u32 r "RewardItem";
    reward_exp = u64 r "RewardExp";
    reward_point = u64 r "RewardPoint";
    reward_type = int r "RewardType";
  }

  unfoldable pub class_info_from_row : Row → ClassInfo
  unfolding str int u32 u64
  class_info_from_row r = record {
    class_index = u32 r "ClassIndex";
    class_level = int r "ClassLevel";
    type = int r "Type";
    career = int r "Career";
    class_name = str r "ClassName";
    exp_min = u64 r "ExpMin";
    exp_max = u64 r "ExpMax";
    point_value = u64 r "PointValue";
    reward_item_index =
        (u32 r "RewardItemIndex1", u32 r "RewardItemIndex2", u32 r "RewardItemIndex3");
  }

  -- The loop over the six pairs of columns, whose names are written out.
  unfoldable pub materials_from_row : Row → List (String × String) → List RecipeMaterial
  unfolding int u32
  materials_from_row r [] = []
  materials_from_row r ((material, count) ∷ columns) =
      let rest = materials_from_row r columns in
      if u32 r material == 0
      then rest
      else record { item_index = u32 r material; count = int r count } ∷ rest

  abbrev material_columns : List (String × String)
  material_columns =
      ("Material1", "mCount1")
      ∷ ("Material2", "mCount2")
      ∷ ("Material3", "mCount3")
      ∷ ("Material4", "mCount4")
      ∷ ("Material5", "mCount5")
      ∷ ("Material6", "mCount6")
      ∷ []

  unfoldable pub recipe_from_row : Row → Recipe
  unfolding int u32 u64 bool materials_from_row
  recipe_from_row r = record {
    id = u32 r "id";
    exist = bool r "exist";
    represent_index = u32 r "RepresentIndex";
    require_level = int r "requireLv";
    price_type = int r "priceType";
    price_point = u64 r "priceP";
    price_cash = u64 r "priceC";
    materials = materials_from_row r material_columns;
    item_output = u32 r "itemOutput";
    count_output = int r "countOutput";
  }

  unfoldable pub custom_part_from_row : Row → CustomPart
  unfolding str int u32
  custom_part_from_row r = record {
    part_index = u32 r "PartIndex";
    attack = int r "Attack";
    accuracy = int r "Accuracy";
    stability = int r "Stability";
    shot_speed = int r "ShotSpeed";
    able_to_mode = str r "AbleToMode";
  }

  unfoldable pub function_item_from_row : Row → FunctionItem
  unfolding str int
  function_item_from_row r = record {
    function_index = to_u32 (int r "FunctionIndex");
    function_type = int r "FunctionType";
    item_desc = str r "ItemDesc";
    value = int r "Value";
  }
