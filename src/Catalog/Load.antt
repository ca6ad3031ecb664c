-- ===== src/Catalog/Load.antt =====
-- catalog.go: Load, over the rows of each file.
use fear_online_server.Prelude.{ℕ, suc, String, true, List, [], ◌∷◌, ◌++◌, Option, none, some}
use fear_online_server.Prelude.NatMap.{value_at, put}
use fear_online_server.Repositories.Table.{insert}
use fear_online_server.Catalog.{Catalog, RewardItem, parts_at}
use fear_online_server.Catalog.Rows.{
  Conversions, Row, u32, game_item_from_row, map_info_from_row, reward_item_from_row,
  class_info_from_row, recipe_from_row, custom_part_from_row, function_item_from_row,
}

abbrev pub empty_catalog : Catalog
empty_catalog = record {
  items = [];
  maps = [];
  rewards = [];
  classes = [];
  recipes = [];
  functions = [];
  parts_for = [];
  parts = [];
}

abbrev rewards_at : Option (List RewardItem) → List RewardItem
rewards_at none = []
rewards_at (some rewards) = rewards

infixl 5 ◌>>=◌
abbrev pub ◌>>=◌ : {A B : Type 0} → Option A → (A → Option B) → Option B
none >>= f = none
some a >>= f = f a

-- `index[strings.TrimSpace(header)] = i`.
unfoldable pub index_headers : Conversions → ℕ → List String → List (String × ℕ) → List (String × ℕ)
index_headers conv i [] index = index
index_headers conv i (header ∷ headers) index =
    index_headers conv (suc i) headers (insert (conv.trim_space header) i index)

module _ (conv : Conversions) where
  unfoldable pub add_item : Catalog → Row → Catalog
  unfolding game_item_from_row
  add_item c r =
      let item = game_item_from_row conv r in record c { items = put item.item_index item c.items }

  unfoldable pub add_map : Catalog → Row → Catalog
  unfolding map_info_from_row
  add_map c r =
      let info = map_info_from_row conv r in record c { maps = put info.map_index info c.maps }

  unfoldable pub add_reward : Catalog → Row → Catalog
  unfolding reward_item_from_row
  add_reward c r =
      let reward = reward_item_from_row conv r in
      let before = rewards_at (value_at reward.reward_index c.rewards) in
      record c { rewards = put reward.reward_index (before ++ (reward ∷ [])) c.rewards }

  unfoldable pub add_class : Catalog → Row → Catalog
  unfolding class_info_from_row
  add_class c r = record c { classes = c.classes ++ (class_info_from_row conv r ∷ []) }

  unfoldable pub add_recipe : Catalog → Row → Catalog
  unfolding recipe_from_row
  add_recipe c r =
      let recipe = recipe_from_row conv r in record c { recipes = put recipe.id recipe c.recipes }

  unfoldable pub add_part_link : Catalog → Row → Catalog
  unfolding u32
  add_part_link c r =
      let weapon = u32 conv r "WeaponIndex" in
      let parts = parts_at (value_at weapon c.parts_for) in
      record c { parts_for = put weapon (put (u32 conv r "PartIndex") true parts) c.parts_for }

  unfoldable pub add_part : Catalog → Row → Catalog
  unfolding custom_part_from_row
  add_part c r =
      let part = custom_part_from_row conv r in
      record c { parts = put part.part_index part c.parts }

  unfoldable pub add_function : Catalog → Row → Catalog
  unfolding function_item_from_row
  add_function c r =
      let function = function_item_from_row conv r in
      record c { functions = put function.function_index function c.functions }

  -- `for _, fields := range rows[1:]`.
  unfoldable pub each_row :
      (Catalog → Row → Catalog) → List (String × ℕ) → List (List String) → Catalog → Catalog
  each_row f index [] c = c
  each_row f index (fields ∷ rows) c =
      each_row f index rows (f c (record { index = index; fields = fields }))

  abbrev each_below : (Catalog → Row → Catalog) → List (List String) → Catalog → Catalog
  each_below f [] c = c
  each_below f (headers ∷ rows) c = each_row f (index_headers conv 0 headers []) rows c

  abbrev each_of :
      Option (List (List String)) → (Catalog → Row → Catalog) → Catalog → Option Catalog
  each_of none f c = none
  each_of (some rows) f c = some (each_below f rows c)

  -- The rows of an embedded file, which the CSV reader gives; `none` is its error, or that of the
  -- file.
  module _ (files : String → Option (List (List String))) where
    unfoldable pub each : String → (Catalog → Row → Catalog) → Catalog → Option Catalog
    unfolding each_row index_headers
    each name f c = each_of (files name) f c

    unfoldable pub load : Option Catalog
    unfolding each add_item add_map add_reward add_class add_recipe add_part_link add_part
        add_function
    load = do
      c ← each "data/GameItem.csv" add_item empty_catalog
      c ← each "data/MapInfo.csv" add_map c
      c ← each "data/RewardItem.csv" add_reward c
      c ← each "data/ClassInfo.csv" add_class c
      c ← each "data/Recipe.csv" add_recipe c
      c ← each "data/PartLinkTable.csv" add_part_link c
      c ← each "data/CustomPartItem.csv" add_part c
      each "data/FunctionItem.csv" add_function c
