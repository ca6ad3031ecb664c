-- ===== src/Catalog/Runs.antt =====
-- A small catalog, read from rows.
use fear_online_server.Prelude.{
  ℕ, ◌≡◌, refl, String, true, false, ◌=ₛ◌, if◌then◌else◌, List, [], ◌∷◌, any_by, Option, some,
}
use fear_online_server.Prelude.Int.{pos}
use fear_online_server.Catalog.{Catalog, MapInfo, accepts}
use fear_online_server.Catalog.Rows.{Conversions}
use fear_online_server.Catalog.Load.{load, empty_catalog}
use fear_online_server.Catalog.Links.{links, data_rows, accepts-load}

abbrev number_of : String → ℕ
number_of s = if s =ₛ "7" then 7 else if s =ₛ "8" then 8 else 0

abbrev digits : Conversions
digits = record {
  trim_space = λ s. s;
  split = λ s separator. s ∷ [];
  atoi = λ s. (pos (number_of s), true);
  parse_uint = λ s bits. number_of s;
}

-- Only the table of part links has rows.
abbrev link_file : String → Option (List (List String))
link_file name =
    if name =ₛ "data/PartLinkTable.csv"
    then some (("WeaponIndex" ∷ "PartIndex" ∷ []) ∷ ("7" ∷ "8" ∷ []) ∷ [])
    else some []

abbrev linked : Catalog
linked = record empty_catalog { parts_for = (7, (8, true) ∷ []) ∷ [] }

loads_linked : load digits link_file ≡ some linked
unfolding load
loads_linked = refl

accepts-load_example :
    accepts linked 7 8
    ≡ any_by (links digits 7 8) (data_rows digits (link_file "data/PartLinkTable.csv"))
accepts-load_example = accepts-load digits link_file linked 7 8 loads_linked

linked_accepts : accepts linked 7 8 ≡ true
unfolding accepts
linked_accepts = refl

abbrev rooftop : MapInfo
rooftop = record {
  map_index = 3;
  map_mode = pos 0;
  play_normal = true;
  play_pve = false;
  user = [];
  user_min = pos 0;
  user_default = pos 0;
  map_name = "TAM_Rooftop";
  mode_name = "";
  difficulty = pos 0;
  win_reward_item = 0;
  lose_reward_index = 0;
  draw_reward_index = 0;
}

abbrev with_maps : Catalog
with_maps = record linked {
  maps = (3, rooftop) ∷ (2, record rooftop { map_index = 2; map_name = "Rag_Town" }) ∷ [];
}
